-- ===== src/Message/Private.antt =====
-- `$To: <nick> From: <nick> $<<nick>> <text>`, parsed and split.
use mathlib.Core.List.{append-nil}
use verlihub.Base.{
  ℕ, ◌+◌, ◌^◌, ◌<◌, ◌≡◌, refl, ap, ◌∙◌, sym, arith, Bool, true, false, List, [], ◌++◌, inl, length,
  get_or, set, replicate, length-append, length-set, bytes, Bytes,
}
use verlihub.Message.{Parser, split_on_text, split_chunk_text, set_chunk, chunk_string}
use verlihub.Message.Command
use verlihub.Message.Command.{keyword}
use verlihub.Message.Search.{NotIn}
use verlihub.Message.SplitLaws.{
  split_at, split_on_text-append, split_chunk_text-append, split_at-IsChunk, length-set_chunk,
  regroup, chunk_string-cut,
}
use verlihub.Message.Parsed.{
  received, part, has_error, IsParsed, parse-IsParsed, checked-ok, begun, begun-room,
  split_chunks-type,
}
use verlihub.Message.Split.{parse, split_chunks, split_by_type, split_to, checked}

abbrev from_word : Bytes
from_word = bytes " From: "

abbrev open_word : Bytes
open_word = bytes " $<"

abbrev close_word : Bytes
close_word = bytes "> "

-- The text of a private message behind its command.
abbrev pub private_text : Bytes → Bytes → Bytes → Bytes → Bytes
private_text recipient sender nick text =
    recipient ++ (bytes " From: " ++ (sender ++ (bytes " $<" ++ (nick ++ (bytes "> " ++ text)))))

-- No part holds the delimiter behind it.
pub record ArePlain (recipient sender nick text : Bytes) : Type 0 where
  pub recipient_plain :
      NotIn
        (bytes " From: ")
        recipient
        (bytes " From: " ++ (sender ++ (bytes " $<" ++ (nick ++ (bytes "> " ++ text)))))
  pub sender_plain : NotIn (bytes " $<") sender (bytes " $<" ++ (nick ++ (bytes "> " ++ text)))
  pub nick_plain : NotIn (bytes "> ") nick (bytes "> " ++ text)

module _ (q : Parser) (recipient sender nick text : Bytes)
    (v : IsParsed Command.to (keyword Command.to ++ private_text recipient sender nick text) q)
    (short : length q.str < 2 ^ 31) (plain : ArePlain recipient sender nick text) where
  abbrev kw : Bytes
  kw = keyword Command.to

  abbrev rest₂ : Bytes
  rest₂ = nick ++ (close_word ++ text)

  abbrev rest₁ : Bytes
  rest₁ = sender ++ (open_word ++ rest₂)

  abbrev pre₁ : Bytes
  pre₁ = kw ++ (recipient ++ from_word)

  abbrev pre₂ : Bytes
  pre₂ = pre₁ ++ (sender ++ open_word)

  abbrev p₁ : Parser
  p₁ = split_at (begun q) 1 2 kw recipient 7 rest₁

  abbrev p₂ : Parser
  p₂ = split_at p₁ 2 3 pre₁ sender 3 rest₂

  abbrev p₃ : Parser
  p₃ = split_at p₂ 4 5 pre₂ nick 2 text

  whole : q.len ≡ length q.str
  whole = v.len ∙ ap length (sym v.str)

  room : length q.chunks ≡ 10
  room = begun-room Command.to _ q v

  cut₁ : q.str ≡ pre₁ ++ rest₁
  cut₁ = v.str ∙ regroup kw recipient from_word rest₁

  cut₂ : q.str ≡ pre₂ ++ rest₂
  cut₂ = cut₁ ∙ regroup pre₁ sender open_word rest₂

  first_split : checked (split_on_text from_word q.kw_size 1 2 0 true) (begun q) ≡ p₁
  unfolding set_chunk
  first_split = checked-ok (split_on_text from_word q.kw_size 1 2 0 true) (begun q) (
      ap (λ k. split_on_text from_word k 1 2 0 true (begun q)) v.kw_size
      ∙ split_on_text-append (begun q) 1 2 0 kw recipient rest₁ whole (inl refl) from_word
          (omega arith) v.str plain.recipient_plain)

  second_split : checked (split_chunk_text open_word 2 2 3 true) p₁ ≡ p₂
  unfolding set_chunk
  second_split = checked-ok (split_chunk_text open_word 2 2 3 true) p₁ (
      split_chunk_text-append p₁ 2 2 3 pre₁ sender rest₂ whole open_word (omega arith)
        (split_at-IsChunk (begun q) 1 2 kw recipient from_word rest₁
          (rw length-set (omega (arith, room))) short v.str)
        cut₁ plain.sender_plain)

  third_split : checked (split_chunk_text close_word 3 4 5 true) p₂ ≡ p₃
  unfolding set_chunk
  third_split = checked-ok (split_chunk_text close_word 3 4 5 true) p₂ (
      split_chunk_text-append p₂ 3 4 5 pre₂ nick text whole close_word (omega arith)
        (split_at-IsChunk p₁ 2 3 pre₁ sender open_word rest₂
          (simp length-set_chunk (omega (arith, room))) short cut₁)
        cut₂ plain.nick_plain)

  all_splits : split_to (begun q) ≡ p₃
  unfolding split_to set_chunk
  all_splits =
      ap
        (λ r.
          checked (split_chunk_text close_word 3 4 5 true)
            (checked (split_chunk_text open_word 2 2 3 true) r))
        first_split
      ∙ ap (checked (split_chunk_text close_word 3 4 5 true)) second_split
      ∙ third_split

  abbrev done : Parser
  done = record p₃ { modified = false }

  inside : (n : ℕ) → n < 10 → n < length done.chunks
  inside n h = simp length-set_chunk (rw room h)

  part_recipient : (chunk_string done 1).0 ≡ recipient
  unfolding set_chunk
  part_recipient =
      chunk_string-cut done 1 kw recipient (from_word ++ rest₁) (λ e. cc) (inside 1 (omega arith))
        (omega (arith, v.strings)) (unfold get_or replicate in rw v.str_map)
        (unfold set get_or replicate in rw v.chunks) short v.str

  part_sender : (chunk_string done 2).0 ≡ sender
  unfolding set_chunk
  part_sender =
      chunk_string-cut done 2 pre₁ sender (open_word ++ rest₂) (λ e. cc) (inside 2 (omega arith))
        (omega (arith, v.strings)) (unfold get_or replicate in rw v.str_map)
        (unfold set get_or replicate in rw v.chunks) short cut₁

  part_nick : (chunk_string done 4).0 ≡ nick
  unfolding set_chunk
  part_nick =
      chunk_string-cut done 4 pre₂ nick (close_word ++ text) (λ e. cc) (inside 4 (omega arith))
        (omega (arith, v.strings)) (unfold get_or replicate in rw v.str_map)
        (unfold set get_or replicate in rw v.chunks) short cut₂

  length-pre₃ : length (pre₂ ++ (nick ++ close_word)) ≡ length pre₂ + length nick + 2
  length-pre₃ =
      omega (arith, length-append pre₂ (nick ++ close_word), length-append nick close_word)

  part_text : (chunk_string done 5).0 ≡ text
  unfolding set_chunk
  part_text =
      chunk_string-cut done 5 (pre₂ ++ (nick ++ close_word)) text [] (λ e. cc)
        (inside 5 (omega arith)) (omega (arith, v.strings))
        (unfold get_or replicate in rw v.str_map)
        (unfold set get_or replicate in rw v.chunks (rw length-pre₃ refl)) short
        (cut₂ ∙ (regroup pre₂ nick close_word text ∙ simp append-nil))

  no_error : done.error ≡ false
  unfolding set_chunk
  no_error = v.error

  answer : split_chunks q ≡ (false, done)
  unfolding split_by_type
  answer =
      split_chunks-type q Command.to v.type
      ∙ ap {B = Bool × Parser} (λ s. let r = record s { modified = false } in (r.error, r))
          all_splits
      ∙ ap {B = Bool × Parser} (λ e. (e, done)) no_error

-- A private message "$To: recipient From: sender $<nick> text", shorter than 2 ^ 31, received by a
-- parser that was used before, where no part holds the delimiter that ends it earlier: it is split
-- with no error, and `ChunkString` gives back the recipient, the sender, the nick and the text.
pub private-parts :
    (old : List Bytes) (recipient sender nick text : Bytes)
    → length old ≡ 20
    → length (keyword Command.to ++ private_text recipient sender nick text) < 2 ^ 31
    → ArePlain recipient sender nick text
    → let s = keyword Command.to ++ private_text recipient sender nick text in
      (has_error old s ≡ false)
      × (part old s 1 ≡ recipient)
      × (part old s 2 ≡ sender)
      × (part old s 4 ≡ nick)
      × (part old s 5 ≡ text)
private-parts old recipient sender nick text room short plain =
    let rest = private_text recipient sender nick text in
    let q = parse (received old (keyword Command.to ++ rest)) in
    let v = parse-IsParsed Command.to old rest room tt in
    let small : length q.str < 2 ^ 31 = rw v.str short in
    let e = answer q recipient sender nick text v small plain in
    (
      ap (λ r. r.0) e,
      ap (λ (r : Bool × Parser). (chunk_string r.1 1).0) e
          ∙ part_recipient q recipient sender nick text v small plain,
      ap (λ (r : Bool × Parser). (chunk_string r.1 2).0) e
          ∙ part_sender q recipient sender nick text v small plain,
      ap (λ (r : Bool × Parser). (chunk_string r.1 4).0) e
          ∙ part_nick q recipient sender nick text v small plain,
      ap (λ (r : Bool × Parser). (chunk_string r.1 5).0) e
          ∙ part_text q recipient sender nick text v small plain,
    )
