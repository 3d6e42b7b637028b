-- ===== src/Client/Proxy/Escape.antt =====
-- What becomes of text that was escaped for a url.
use ktkkl.Base.{
  ℕ, ◌≡◌, refl, ap, ◌∙◌, [], ◌∷◌, ◌++◌, map, some, Bytes, codes, ◌==◌, ==_iff, if◌then◌else◌,
  Bool-cases, inl, inr,
}
use mathlib.Core.List.{flat_map}
use ktkkl.Client.Proxy.{escaped, urldecode}
use ktkkl.Client.Proxy.Decode.{prepend, decode, decode_plain, urldecode-decode}

-- Text as it stands in a url: the bytes that the comment above the code names are escaped.
unfoldable pub escape_byte : ℕ → Bytes
escape_byte c =
    if c == b'%'
    then codes "%25"
    else if c == b':'
    then codes "%3a"
    else if c == b'@'
    then codes "%40"
    else c ∷ []

unfoldable pub escape : Bytes → Bytes
escape = flat_map escape_byte

abbrev pub at_to_colon : ℕ → ℕ
at_to_colon c = if c == b'@' then b':' else c

decode_escaped :
    (c : ℕ) (s : Bytes) → decode (escape_byte c ++ s) ≡ prepend (at_to_colon c ∷ []) (decode s)
unfolding escape_byte decode escaped
decode_escaped c s = elim (Bool-cases (c == b'%')) [
  | inl t ↦ rw ((==_iff c b'%').0 t)
  | inr f ↦ elim (Bool-cases (c == b':')) [
    | inl t ↦ rw ((==_iff c b':').0 t)
    | inr g ↦ elim (Bool-cases (c == b'@')) [
      | inl t ↦ rw ((==_iff c b'@').0 t)
      | inr h ↦ rw (f, g, h) (decode_plain c s f)
    ]
  ]
]

decode-escape : (s : Bytes) → decode (escape s) ≡ some (map at_to_colon s)
unfolding escape flat_map
decode-escape [] = unfold decode in refl
decode-escape (c ∷ s) =
    decode_escaped c (flat_map escape_byte s) ∙ ap (prepend (at_to_colon c ∷ [])) (decode-escape s)

-- Escaped text is read back with a colon for each `@`: the escape of `@` is not undone.
pub urldecode-escape : (s : Bytes) → urldecode (escape s) ≡ some (map at_to_colon s)
urldecode-escape s = urldecode-decode (escape s) ∙ decode-escape s
