-- ===== src/Guards/Refusals.antt =====
-- When the guard of lengths refuses a message.
use verlihub.Base.{
  ◌≡◌, refl, ap, ◌∙◌, ◌||◌, none, some, inl, inr, ◌==◌, leb, bytes, ℕ, Bytes, List, ◌++◌, length,
  if◌then◌else◌, Option,
}
use verlihub.Message.{Parser}
use verlihub.Message.Command.{DcMsg, keyword}
use verlihub.Message.Recognise.{IsPlain}
use verlihub.Message.Parsed.{received, parse-IsParsed}
use verlihub.Message.Split.{parse}
use verlihub.Guards.{Texts, Limits, Closing, closing, check_proto_len}
use verlihub.Guards.Words.{
  name_in, limits_of, limit_of, length_limit-limit_of, long_command-name_in,
}

-- The guard by the name of a command, and the length of a message.
guard_by_name : Texts → Limits → Bytes → ℕ → Option Closing
guard_by_name texts c name size =
    let most = limit_of (limits_of c) name in
    if (most == 0) || leb size most
    then none
    else some (closing texts (bytes "Your client sent too long protocol command: %s") name)

check_proto_len-named :
    (texts : Texts) (c : Limits) (p : Parser) (t : DcMsg)
    → p.type ≡ some t
    → check_proto_len texts c p ≡ guard_by_name texts c (name_in (keyword t)) p.len
unfolding check_proto_len guard_by_name
check_proto_len-named texts c p t typed =
    let most = length_limit-limit_of c t in
    elim (long_command-name_in c t) [
      | inl free ↦ rw (typed, ← most, free) refl
      | inr named ↦ rw (typed, ← most, named) refl
    ]

-- A message that begins with the word of a command, but for a search whose text begins with "Hub:",
-- received by a parser that was used before. Of the limits by the names of commands, the one of the
-- name in the word counts: CheckProtoLen lets the message pass if there is none or it is 0, or if the
-- message is not longer. Any other message it refuses as a syntax error, with a text that has the name.
pub check_proto_len-received :
    (texts : Texts) (c : Limits) (t : DcMsg) (old : List Bytes) (rest : Bytes)
    → length old ≡ 20
    → IsPlain t rest
    → let name = name_in (keyword t) in
      let most = limit_of (limits_of c) name in
      check_proto_len texts c (parse (received old (keyword t ++ rest))) ≡ (
        if (most == 0) || leb (length (keyword t ++ rest)) most
        then none
        else some (closing texts (bytes "Your client sent too long protocol command: %s") name))
unfolding guard_by_name
check_proto_len-received texts c t old rest room plain =
    let s = keyword t ++ rest in
    let parsed = parse-IsParsed t old rest room plain in
    check_proto_len-named texts c (parse (received old s)) t parsed.type
    ∙ ap (guard_by_name texts c (name_in (keyword t))) parsed.len
