-- ===== src/Dns/Nameservers.antt =====
-- The servers that are read from resolv.conf.
use ext_async.Prelude.{
  Option-cases, inl, inr, ◌≡◌, refl, ap, ◌∙◌, true, false, List, [], ◌∷◌, arith, if_cases, Option,
  none, some, suc, ◌+◌, length,
}
use ext_async.Php.{ℤ, pos}
use ext_async.Dns.{
  add_servers, Text, same, skips, find, last_colon, atoi, add_server, keyword, get_nameservers,
}
use ext_async.Dns.Hosts.{flush_lem, split_word, IsWord, line_of}

-- The two parts around the last colon of a text.
last_colon-length :
    (t host port : Text)
    → last_colon t ≡ some (host, port)
    → length t ≡ suc (length host + length port)
last_colon-length [] host port h = absurd (ground (arith, h))
last_colon-length (c ∷ cs) host port h = elim (Option-cases (last_colon cs)) [
  | inl e ↦ ground (arith, e, h)
  | inr (r, e) ↦ ground (arith, e, h, last_colon-length cs r.0 r.1 e)
]

same_length : (s t : Text) → same s t ≡ true → length s ≡ length t
same_length [] [] h = refl
same_length [] (y ∷ ys) h = absurd (ground (arith, h))
same_length (x ∷ xs) [] h = absurd (ground (arith, h))
same_length (x ∷ xs) (y ∷ ys) h = ground (arith, h, same_length xs ys)

keyword-IsWord : IsWord keyword
keyword-IsWord = (refl, refl, refl)

abbrev add_found : Text → Option (Text × Text) → List (Text × ℤ)
add_found t none = (t, pos 53) ∷ []
add_found t (some (host, port)) = (host, atoi port) ∷ []

add_server_found : (t : Text) → add_server t [] ≡ add_found t (last_colon t)
unfolding add_server
add_server_found t = elim (Option-cases (last_colon t)) [
  | inl e ↦ ground (arith, e)
  | inr (r, e) ↦ ground (arith, e)
]

get_nameservers_line :
    (t : Text) → IsWord t → get_nameservers (line_of keyword t ∷ []) ≡ add_found t (last_colon t)
unfolding get_nameservers
get_nameservers_line t w =
    ap (λ ts. add_servers ts []) (split_word [] t (10 ∷ []) w.1 ∙ flush_lem t [] w.0)
    ∙ if_cases (λ m. m ≡ add_found t (last_colon t)) (skips t) [] (add_server t [])
        (λ h. absurd (ground (arith, h, w.2))) (λ _. add_server_found t)

-- Where a line names one server, whose address has a colon: the server is not found under its address, but
-- under what stands before its last colon, with what stands behind that as its port.
pub get_nameservers-cuts :
    (t host port : Text)
    → IsWord t
    → last_colon t ≡ some (host, port)
    → (get_nameservers (line_of keyword t ∷ []) ≡ (host, atoi port) ∷ [])
      × (find t (get_nameservers (line_of keyword t ∷ [])) ≡ none)
get_nameservers-cuts t host port w h =
    let once : get_nameservers (line_of keyword t ∷ []) ≡ (host, atoi port) ∷ [] =
      get_nameservers_line t w ∙ ap (λ o. add_found t o) h in
    let other : same host t ≡ false =
      ground (arith, same_length host t, last_colon-length t host port h) in
    (once, ap (find t) once ∙ ground (arith, other))
