-- ===== src/Executor/Api/Commands.antt =====
-- The commands of a client that ask for a request are read as such.
use dbms_project_sp.Base.{
  ℕ, ◌≡◌, refl, sym, ap, ◌∙◌, false, [], ◌∷◌, ◌++◌, append_assoc, append-nil, ◌==◌, Bytes, bytes_eq,
  codes, is_space, to_upper, is_lower, arith, All,
}
use dbms_project_sp.Executor.Classifier.{trim, drop_spaces, drop_last_spaces}
use dbms_project_sp.Executor.Api.{
  get_status, get_result, drop_semicolon, remove_optional_semicolon, push_part, split_from,
  split_by_space, api_command, parse_api_command,
}

-- A character of a word: no blank and no semicolon.
abbrev pub InWord : ℕ → Type 0
InWord c = (is_space c ≡ false) × ((c == b';') ≡ false)

abbrev NoBlank : ℕ → Type 0
NoBlank c = is_space c ≡ false

abbrev pub EndsIn : (ℕ → Type 0) → Bytes → Type 0
EndsIn P [] = ⊥
EndsIn P (c ∷ []) = P c
EndsIn P (c ∷ d ∷ s) = EndsIn P (d ∷ s)

abbrev StartsIn : (ℕ → Type 0) → Bytes → Type 0
StartsIn P [] = ⊥
StartsIn P (c ∷ s) = P c

drop_spaces-word : (s : Bytes) → StartsIn NoBlank s → drop_spaces s ≡ s
unfolding drop_spaces
drop_spaces-word [] h = absurd h
drop_spaces-word (c ∷ s) h = rw h refl

drop_last_spaces-word : (s : Bytes) → EndsIn NoBlank s → drop_last_spaces s ≡ s
unfolding drop_last_spaces
drop_last_spaces-word [] h = absurd h
drop_last_spaces-word (c ∷ []) h = ground (arith, h)
drop_last_spaces-word (c ∷ d ∷ s) h = ground (arith, drop_last_spaces-word (d ∷ s) h)

drop_semicolon-word : (s : Bytes) → EndsIn InWord s → drop_semicolon s ≡ s
unfolding drop_semicolon
drop_semicolon-word [] h = absurd h
drop_semicolon-word (c ∷ []) h = ground (arith, h.1)
drop_semicolon-word (c ∷ d ∷ s) h = ap (λ t. c ∷ t) (drop_semicolon-word (d ∷ s) h)

drop_semicolon-end : (s : Bytes) → drop_semicolon (s ++ b';' ∷ []) ≡ s
unfolding drop_semicolon
drop_semicolon-end [] = refl
drop_semicolon-end (c ∷ []) = refl
drop_semicolon-end (c ∷ d ∷ s) = ap (λ t. c ∷ t) (drop_semicolon-end (d ∷ s))

trim-word : (s : Bytes) → StartsIn NoBlank s → EndsIn NoBlank s → trim s ≡ s
unfolding trim
trim-word s h k = ap drop_last_spaces (drop_spaces-word s h) ∙ drop_last_spaces-word s k

weaker_end : (s : Bytes) → EndsIn InWord s → EndsIn NoBlank s
weaker_end [] h = h
weaker_end (c ∷ []) h = h.0
weaker_end (c ∷ d ∷ s) h = weaker_end (d ∷ s) h

EndsIn-append : (P : ℕ → Type 0) (a s : Bytes) → EndsIn P s → EndsIn P (a ++ s)
EndsIn-append P [] s h = h
EndsIn-append P (c ∷ []) [] h = absurd h
EndsIn-append P (c ∷ []) (d ∷ s) h = h
EndsIn-append P (c ∷ d ∷ a) s h = EndsIn-append P (d ∷ a) s h

split_from-word :
    (current s : Bytes) → All InWord s → split_from current s ≡ push_part (current ++ s) []
unfolding split_from
split_from-word current [] h = ap (λ t. push_part t []) (sym (append-nil current))
split_from-word current (c ∷ s) h =
    rw (h.0.0, split_from)
      (split_from-word (current ++ c ∷ []) s h.1
        ∙ ap (λ t. push_part t []) (append_assoc current (c ∷ []) s))

-- A text without blanks and semicolons, and not empty.
abbrev pub IsWord : Bytes → Type 0
IsWord s = EndsIn InWord s × All InWord s

-- The text of a command, with a semicolon behind it or without.
command-words :
    (c : ℕ) (s : Bytes)
    → NoBlank c
    → EndsIn InWord (c ∷ s)
    → (parse_api_command (c ∷ s) ≡ api_command (split_by_space (c ∷ s)) (c ∷ s))
      × (parse_api_command ((c ∷ s) ++ b';' ∷ [])
          ≡ api_command (split_by_space (c ∷ s)) ((c ∷ s) ++ b';' ∷ []))
unfolding parse_api_command remove_optional_semicolon is_space
command-words c s h e =
    let text : Bytes = c ∷ s in
    let kept : trim text ≡ text = trim-word text h (weaker_end text e) in
    let closed : Bytes = text ++ b';' ∷ [] in
    let closed_kept : trim closed ≡ closed =
      trim-word closed h (EndsIn-append NoBlank text (b';' ∷ []) refl) in
    (
      ap (λ t. api_command (split_by_space t) text)
          (ap (λ t. trim (drop_semicolon t)) kept ∙ ap trim (drop_semicolon-word text e) ∙ kept),
      ap (λ t. api_command (split_by_space t) closed)
          (ap (λ t. trim (drop_semicolon t)) closed_kept
            ∙ ap trim (drop_semicolon-end text)
            ∙ kept),
    )

word-last : (id : Bytes) → EndsIn InWord id → push_part id [] ≡ id ∷ []
word-last [] h = absurd h
word-last (c ∷ id) h = refl

api_status :
    (id raw : Bytes)
    → IsWord id
    → api_command (split_by_space (codes "GET STATUS " ++ id)) raw ≡ get_status id
unfolding split_by_space split_from is_space bytes_eq to_upper is_lower
api_status id raw w =
    ap (λ parts. api_command (codes "GET" ∷ codes "STATUS" ∷ parts) raw)
      (split_from-word [] id w.1 ∙ word-last id w.0)

api_result :
    (id raw : Bytes)
    → IsWord id
    → api_command (split_by_space (codes "GET RESULT " ++ id)) raw ≡ get_result id
unfolding split_by_space split_from is_space bytes_eq to_upper is_lower
api_result id raw w =
    ap (λ parts. api_command (codes "GET" ∷ codes "RESULT" ∷ parts) raw)
      (split_from-word [] id w.1 ∙ word-last id w.0)

-- `GET STATUS` and `GET RESULT`, in upper case and with one blank before a word for the id, and with
-- a semicolon behind it or without, are read as the command and that id.
pub parse_api_command-request :
    (id : Bytes)
    → IsWord id
    → (parse_api_command (codes "GET STATUS " ++ id) ≡ get_status id)
      × (parse_api_command ((codes "GET STATUS " ++ id) ++ b';' ∷ []) ≡ get_status id)
      × (parse_api_command (codes "GET RESULT " ++ id) ≡ get_result id)
      × (parse_api_command ((codes "GET RESULT " ++ id) ++ b';' ∷ []) ≡ get_result id)
unfolding is_space
parse_api_command-request id w =
    let (status, closed_status) =
      command-words b'G' (codes "ET STATUS " ++ id) refl
        (EndsIn-append InWord (codes "GET STATUS ") id w.0) in
    let (result, closed_result) =
      command-words b'G' (codes "ET RESULT " ++ id) refl
        (EndsIn-append InWord (codes "GET RESULT ") id w.0) in
    (
      status ∙ api_status id _ w,
      closed_status ∙ api_status id _ w,
      result ∙ api_result id _ w,
      closed_result ∙ api_result id _ w,
    )
