-- ===== src/Message/Parsed.antt =====
-- The state of a parser between `Parse` and the switch of `SplitChunks`.
use verlihub.Base.{
  ℕ, ◌≡◌, refl, ap, Bool, true, false, some, List, ◌++◌, length, replicate, Bytes, pos,
}
use verlihub.Message.{Parser, no_chunk, new_parser, re_init, set_chunk, chunk_string}
use verlihub.Message.Command.{DcMsg, keyword}
use verlihub.Message.Recognise.{IsPlain, parse-keyword}
use verlihub.Message.Split.{parse, split_chunks, split_by_type, checked}

-- A parser of `cMessageDC`, with ten chunks, that was used before and then got a new message.
abbrev pub received : List Bytes → Bytes → Parser
received old s = record (re_init (record (new_parser 10) { strings = old })) { str = s }

-- `ChunkString(n)` after parsing and splitting.
abbrev pub part : List Bytes → Bytes → ℕ → Bytes
part old s n = (chunk_string (split_chunks (parse (received old s))).1 n).0

abbrev pub has_error : List Bytes → Bytes → Bool
has_error old s = (split_chunks (parse (received old s))).0

-- The state that `Parse` leaves for a command.
pub record IsParsed (t : DcMsg) (s : Bytes) (q : Parser) : Type 0 where
  pub str : q.str ≡ s
  pub type : q.type ≡ some t
  pub kw_size : q.kw_size ≡ length (keyword t)
  pub len : q.len ≡ length s
  pub chunks : q.chunks ≡ replicate 10 no_chunk
  pub strings : length q.strings ≡ 20
  pub str_map : q.str_map ≡ replicate 10 false
  pub error : q.error ≡ false

pub parse-IsParsed :
    (t : DcMsg) (old : List Bytes) (rest : Bytes)
    → length old ≡ 20
    → IsPlain t rest
    → IsParsed t (keyword t ++ rest) (parse (received old (keyword t ++ rest)))
unfolding re_init new_parser
parse-IsParsed t old rest room plain =
    rw (parse-keyword t rest (received old (keyword t ++ rest)) plain refl) (record {
      str = refl;
      type = refl;
      kw_size = refl;
      len = refl;
      chunks = refl;
      strings = room;
      str_map = refl;
      error = refl;
    })

pub checked-ok :
    (f : Parser → Bool × Parser) (p : Parser) {q : Parser} → f p ≡ (true, q) → checked f p ≡ q
unfolding checked
checked-ok f p e = rw e

-- The parser when the switch of `SplitChunks` begins.
abbrev pub begun : Parser → Parser
begun q = set_chunk q 0 (pos 0) (pos (length q.str))

pub split_chunks-type :
    (q : Parser) (t : DcMsg)
    → q.type ≡ some t
    → split_chunks q
      ≡ (let r = record (split_by_type (some t) (begun q)) { modified = false } in (r.error, r))
unfolding split_chunks
split_chunks-type q t e =
    ap {B = Bool × Parser}
      (λ k. let r = record (split_by_type k (begun q)) { modified = false } in (r.error, r)) e

pub begun-room : (t : DcMsg) (s : Bytes) (q : Parser) → IsParsed t s q → length q.chunks ≡ 10
unfolding replicate
begun-room t s q v = rw v.chunks
