-- ===== src/Texts.antt =====
-- What the checks use of Python's `str`: `strip`, `rstrip` of a character, and `endswith` of one.
use Prim.Native.Char.{Char, code}
use Prim.Native.String.{◌∷◌ as push}
use poly_market_btc_arbitrag.Prelude.{
  Bool, true, false, ◌&&◌, ◌||◌, String, eqb, leb, if◌then◌else◌,
}

-- The characters for which `isspace` holds.
unfoldable pub is_space : Char → Bool
is_space c =
    let n = code c in
    (leb 9 n && leb n 13)
    || ((leb 28 n && leb n 32)
        || (eqb n 133
            || (eqb n 160
                || (eqb n 5760
                    || ((leb 8192 n && leb n 8202)
                        || (eqb n 8232
                            || (eqb n 8233 || (eqb n 8239 || (eqb n 8287 || eqb n 12288)))))))))

unfoldable pub is_empty : String → Bool
is_empty String.[] = true
is_empty (push c s) = false

unfoldable pub lstrip_if : (Char → Bool) → String → String
lstrip_if test String.[] = ""
lstrip_if test (push c s) = let rest = lstrip_if test s in if test c then rest else push c s

unfoldable pub rstrip_if : (Char → Bool) → String → String
rstrip_if test String.[] = ""
rstrip_if test (push c s) =
    let rest = rstrip_if test s in if test c && is_empty rest then "" else push c rest

-- `text.strip()`
unfoldable pub strip : String → String
strip s = rstrip_if is_space (lstrip_if is_space s)

-- `text.rstrip("/")`
unfoldable pub rstrip_slash : String → String
rstrip_slash s = rstrip_if (λ c. eqb (code c) 47) s

-- `f"{text[:-1]}+00:00"` where the text ends with "Z" or "z", and the text itself where it does not.
unfoldable pub offset_for_z : String → String
offset_for_z String.[] = ""
offset_for_z (push c s) =
    let rest = offset_for_z s in
    if is_empty s && (eqb (code c) 90 || eqb (code c) 122) then "+00:00" else push c rest
