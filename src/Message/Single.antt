-- ===== src/Message/Single.antt =====
-- The commands with a single parameter, parsed and split.
use mathlib.Core.List.{append-nil}
use verlihub.Base.{
  ◌^◌, ◌<◌, ◌-◌, ◌≡◌, refl, ap, ◌∙◌, sym, arith, Bool, true, false, some, List, ◌++◌, length,
  get_or, set, replicate, length-append, Bytes, ltb, pos, [],
}
use verlihub.Message.{Parser, set_chunk, chunk_string}
use verlihub.Message.Command.{DcMsg, keyword}
use verlihub.Message.Recognise.{IsPlain}
use verlihub.Message.SplitLaws.{length-set_chunk, chunk_string-cut}
use verlihub.Message.Parsed.{
  received, part, has_error, IsParsed, parse-IsParsed, begun, begun-room, split_chunks-type,
}
use verlihub.Message.Split.{parse, split_chunks, split_by_type, split_parameter}

-- The commands of the protocol whose word is followed by one parameter.
unfoldable pub has_single : DcMsg → Bool
has_single DcMsg.key = true
has_single DcMsg.supports = true
has_single DcMsg.validate_nick = true
has_single DcMsg.version = true
has_single DcMsg.my_hub_url = true
has_single DcMsg.my_pass = true
has_single DcMsg.bot_info = true
has_single DcMsg.user_ip = true
has_single DcMsg.kick = true
has_single DcMsg.quit = true
has_single DcMsg.unban = true
has_single DcMsg.who_ip = true
has_single DcMsg.set_topic = true
has_single DcMsg.my_nick = true
has_single DcMsg.lock = true
has_single _ = false

single-IsPlain : (t : DcMsg) (par : Bytes) → has_single t ≡ true → IsPlain t par
unfolding has_single
single-IsPlain DcMsg.search par e = cc
single-IsPlain DcMsg.msearch par e = cc
single-IsPlain DcMsg.unknown par e = cc
single-IsPlain _ par e = tt

split_by_type-single :
    (t : DcMsg) (p : Parser) → has_single t ≡ true → split_by_type (some t) p ≡ split_parameter p
unfolding split_by_type has_single
split_by_type-single DcMsg.key p e = refl
split_by_type-single DcMsg.supports p e = refl
split_by_type-single DcMsg.validate_nick p e = refl
split_by_type-single DcMsg.version p e = refl
split_by_type-single DcMsg.my_hub_url p e = refl
split_by_type-single DcMsg.my_pass p e = refl
split_by_type-single DcMsg.bot_info p e = refl
split_by_type-single DcMsg.user_ip p e = refl
split_by_type-single DcMsg.kick p e = refl
split_by_type-single DcMsg.quit p e = refl
split_by_type-single DcMsg.unban p e = refl
split_by_type-single DcMsg.who_ip p e = refl
split_by_type-single DcMsg.set_topic p e = refl
split_by_type-single DcMsg.my_nick p e = refl
split_by_type-single DcMsg.lock p e = refl
split_by_type-single _ p e = cc

module _ (t : DcMsg) (q : Parser) (par : Bytes) (v : IsParsed t (keyword t ++ par) q)
    (short : length q.str < 2 ^ 31) where
  abbrev filled : Parser
  filled = set_chunk (begun q) 1 (pos (length (keyword t))) (pos (length par))

  split_parameter-filled : split_parameter (begun q) ≡ filled
  unfolding split_parameter set_chunk
  split_parameter-filled =
      let size = length-append (keyword t) par in
      let fits : ltb (length (keyword t ++ par)) (length (keyword t)) ≡ false =
        ground (arith, size) in
      let left : length (keyword t ++ par) - length (keyword t) ≡ length par =
        omega (arith, size) in
      rw (v.len, v.kw_size, fits, left) refl

  abbrev done : Parser
  done = record filled { modified = false }

  answer : has_single t ≡ true → split_chunks q ≡ (false, done)
  unfolding set_chunk
  answer single =
      split_chunks-type q t v.type
      ∙ ap {B = Bool × Parser} (λ s. let r = record s { modified = false } in (r.error, r))
          (split_by_type-single t (begun q) single ∙ split_parameter-filled)
      ∙ ap {B = Bool × Parser} (λ e. (e, done)) v.error

  part_parameter : (chunk_string done 1).0 ≡ par
  unfolding set_chunk
  part_parameter =
      chunk_string-cut done 1 (keyword t) par [] (λ e. cc)
        (simp length-set_chunk (rw (begun-room t (keyword t ++ par) q v) (omega arith)))
        (omega (arith, v.strings)) (unfold get_or replicate in rw v.str_map)
        (unfold set get_or replicate in rw v.chunks refl) short
        (v.str ∙ ap (λ s. keyword t ++ s) (sym (append-nil par)))

-- A message that is the word of a command with a single parameter and the parameter, shorter than
-- 2 ^ 31, received by a parser that was used before: it is split with no error, and `ChunkString`
-- gives back the parameter.
pub single-part :
    (t : DcMsg) (old : List Bytes) (par : Bytes)
    → has_single t ≡ true
    → length old ≡ 20
    → length (keyword t ++ par) < 2 ^ 31
    → let s = keyword t ++ par in (has_error old s ≡ false) × (part old s 1 ≡ par)
single-part t old par single room short =
    let s = keyword t ++ par in
    let q = parse (received old s) in
    let v = parse-IsParsed t old par room (single-IsPlain t par single) in
    let small : length q.str < 2 ^ 31 = rw v.str short in
    let e = answer t q par v small single in
    (
      ap (λ r. r.0) e,
      ap (λ (r : Bool × Parser). (chunk_string r.1 1).0) e ∙ part_parameter t q par v small,
    )
