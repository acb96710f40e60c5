-- ===== src/Message/Recognise.antt =====
-- What `cMessageDC::Parse` recognises.
use verlihub.Base.{
  ℕ, ◌≡◌, ◌≢◌, refl, arith, Bool, true, false, none, some, List, [], ◌∷◌, ◌++◌, ◌⊎◌, inl, inr, ◌==◌,
  Bool-cases, Option-cases, length, Bytes, bytes, starts_with,
}
use verlihub.Message.{Parser}
use verlihub.Message.Command.{DcMsg, keyword, commands, are_you, first_command}
use verlihub.Message.Split.{parse, parse_text, found_command}

-- The one ambiguity of the words: a search whose text begins like a passive search.
abbrev pub IsPlain : DcMsg → Bytes → Type 0
IsPlain DcMsg.search rest = starts_with (bytes "Hub:") rest ≡ false
IsPlain DcMsg.msearch rest = starts_with (bytes "Hub:") rest ≡ false
IsPlain DcMsg.unknown rest = ⊥
IsPlain DcMsg.connect_to_me rest = Unit {0}
IsPlain t rest = Unit {0}

-- A message that begins with the word of a command gets its type, unless it is a search whose text
-- begins with "Hub:", whatever type the parser had before; the length of the word and of the
-- message are set, and nothing else changes.
pub parse-keyword :
    (t : DcMsg) (rest : Bytes) (p : Parser)
    → IsPlain t rest
    → p.str ≡ keyword t ++ rest
    → parse p ≡ record p { type = some t; kw_size = length (keyword t); len = length p.str }
unfolding parse found_command keyword first_command are_you starts_with
parse-keyword DcMsg.search rest p plain made = rw (made, parse, plain)
parse-keyword DcMsg.msearch rest p plain made = rw (made, parse, plain)
parse-keyword DcMsg.unknown rest p plain made = absurd plain
parse-keyword _ rest p plain made = rw (made, parse)

-- All elements of a list.
abbrev pub All {ℓ κ} : {A : Type ℓ} → (A → Type κ) → List A → Type κ
All P [] = Unit
All P (x ∷ xs) = P x × All P xs

first_command-none :
    (cs : List DcMsg) (str : Bytes)
    → first_command cs str ≡ none
    → str ≢ []
    → All (λ c. starts_with (keyword c) str ≡ false) cs
unfolding first_command are_you
first_command-none [] str h ne = tt
first_command-none (c ∷ cs) [] h ne = absurd (ne refl)
first_command-none (c ∷ cs) (b ∷ s) h ne = ground (arith, first_command-none cs (b ∷ s))

first_command-some :
    (cs : List DcMsg) (str : Bytes) (t : DcMsg)
    → first_command cs str ≡ some t
    → starts_with (keyword t) str ≡ true
unfolding first_command are_you
first_command-some [] str t h = cc
first_command-some (c ∷ cs) [] t h = first_command-some cs [] t h
first_command-some (c ∷ cs) (b ∷ s) t h = ground (arith, first_command-some cs (b ∷ s) t)

All-append {ℓ κ} :
    {A : Type ℓ} (P : A → Type κ) (xs ys : List A) → All P xs → All P ys → All P (xs ++ ys)
All-append P [] ys h k = k
All-append P (x ∷ xs) ys h k = (h.0, All-append P xs ys h.1 k)

abbrev is_unknown : DcMsg → Bool
is_unknown DcMsg.unknown = true
is_unknown DcMsg.connect_to_me = false
is_unknown _ = false

first_command-known :
    (cs : List DcMsg) (str : Bytes) (t : DcMsg)
    → All (λ c. is_unknown c ≡ false) cs
    → first_command cs str ≡ some t
    → is_unknown t ≡ false
unfolding first_command
first_command-known [] str t h e = cc
first_command-known (c ∷ cs) str t h e = ground (arith, first_command-known cs str t)

commands-known : All (λ c. is_unknown c ≡ false) commands
commands-known = ground arith

starts_chat :
    (c : ℕ) (s : Bytes) → (c == b'<') ≡ true → starts_with (keyword DcMsg.chat) (c ∷ s) ≡ true
unfolding starts_with keyword
starts_chat c s e = rw e

starts_other :
    (c : ℕ) (s : Bytes) → (c == b'<') ≡ false → starts_with (keyword DcMsg.chat) (c ∷ s) ≡ false
unfolding starts_with keyword
starts_other c s e = rw e

parse_text-exact :
    (str : Bytes) (p : Parser)
    → p.type ≡ none
    → ((t : DcMsg)
        → (parse_text str p).type ≡ some t
        → t ≢ DcMsg.unknown
        → (starts_with (keyword t) str ≡ true)
          × ((parse_text str p).kw_size ≡ length (keyword t))
          × ((parse_text str p).len ≡ length str))
      × ((parse_text str p).type ≡ some DcMsg.unknown
          → (str ≡ [])
            ⊎ All (λ c. starts_with (keyword c) str ≡ false) (commands ++ DcMsg.chat ∷ []))
unfolding parse_text found_command
parse_text-exact [] p fresh = (λ t e ne. absurd (ne (cc)), λ e. inl refl)
parse_text-exact (c ∷ s) p fresh = elim (Bool-cases (c == b'<')) [
  | inl chat ↦ rw chat (
    λ t e ne. let same : t ≡ DcMsg.chat = cc in rw same (starts_chat c s chat, refl, refl),
    λ e. cc,
  )
  | inr other ↦ elim (Option-cases (first_command commands (c ∷ s))) [
    | inl none' ↦
        rw (other, none', found_command, fresh)
          (
            λ t e ne. absurd (ne (cc)),
            λ e. inr (
                All-append (λ c'. starts_with (keyword c') (c ∷ s) ≡ false) commands
                  (DcMsg.chat ∷ []) (first_command-none commands (c ∷ s) none' (λ z. cc))
                  (starts_other c s other, tt)),
          )
    | inr (k, found) ↦
        rw (other, found)
          (
            λ t e ne.
                let same : t ≡ k = cc in
                rw same (first_command-some commands (c ∷ s) k found, refl, refl),
            λ e.
                let same : k ≡ DcMsg.unknown = cc in
                let known = first_command-known commands (c ∷ s) k commands-known found in
                cc (rw same at known),
          )
  ]
]

-- On a parser that holds an unparsed message, `Parse` gives a known type only to a message that
-- begins with the word of that type, and then sets the lengths of the word and of the message. It
-- answers unknown only if the message is empty or no word of the table begins it.
pub parse-exact :
    (p : Parser)
    → p.type ≡ none
    → ((t : DcMsg)
        → (parse p).type ≡ some t
        → t ≢ DcMsg.unknown
        → (starts_with (keyword t) p.str ≡ true)
          × ((parse p).kw_size ≡ length (keyword t))
          × ((parse p).len ≡ length p.str))
      × ((parse p).type ≡ some DcMsg.unknown
          → (p.str ≡ [])
            ⊎ All (λ c. starts_with (keyword c) p.str ≡ false) (commands ++ DcMsg.chat ∷ []))
unfolding parse
parse-exact p fresh = parse_text-exact p.str p fresh
