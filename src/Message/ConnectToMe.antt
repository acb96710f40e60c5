-- ===== src/Message/ConnectToMe.antt =====
-- `$ConnectToMe <nick> <ip>:<port>`, parsed and split.
use mathlib.Core.List.{append_assoc, append-nil}
use verlihub.Base.{
  ℕ, ◌^◌, ◌<◌, ◌≡◌, refl, ap, ◌∙◌, sym, arith, Bool, true, false, List, [], ◌∷◌, ◌++◌, inl, length,
  get_or, set, replicate, length-append, length-set, Bytes,
}
use verlihub.Message.{Parser, split_on_byte, split_chunk_byte, set_chunk, chunk_string}
use verlihub.Message.Command
use verlihub.Message.Command.{DcMsg, keyword}
use verlihub.Message.Search.{Lacks}
use verlihub.Message.SplitLaws.{
  split_at, split_on_byte-append, split_chunk_byte-append, split_at-IsChunk, length-set_chunk,
  regroup, chunk_string-cut,
}
use verlihub.Message.Parsed.{
  received, part, has_error, IsParsed, parse-IsParsed, checked-ok, begun, begun-room,
  split_chunks-type,
}
use verlihub.Message.Split.{parse, split_chunks, split_by_type, split_connect_to_me, checked}

module _ (q : Parser) (nick ip port : Bytes)
    (v : IsParsed Command.connect_to_me
      (keyword Command.connect_to_me ++ (nick ++ b' ' ∷ (ip ++ b':' ∷ port)))
      q)
    (short : length q.str < 2 ^ 31) (n : Lacks b' ' nick) (i : Lacks b':' ip) where
  abbrev kw : Bytes
  kw = keyword Command.connect_to_me

  abbrev p₁ : Parser
  p₁ = split_at (begun q) 1 2 kw nick 1 (ip ++ b':' ∷ port)

  abbrev p₂ : Parser
  p₂ = split_at p₁ 3 4 (kw ++ (nick ++ b' ' ∷ [])) ip 1 port

  whole : q.len ≡ length q.str
  whole = v.len ∙ ap length (sym v.str)

  first_split : checked (split_on_byte b' ' q.kw_size 1 2 0 true) (begun q) ≡ p₁
  unfolding set_chunk
  first_split = checked-ok (split_on_byte b' ' q.kw_size 1 2 0 true) (begun q) (
      ap (λ k. split_on_byte b' ' k 1 2 0 true (begun q)) v.kw_size
      ∙ split_on_byte-append (begun q) 1 2 0 kw nick (ip ++ b':' ∷ port) whole (inl refl) b' ' v.str
          n)

  abbrev pre₁ : Bytes
  pre₁ = kw ++ (nick ++ b' ' ∷ [])

  room : length q.chunks ≡ 10
  room = begun-room Command.connect_to_me _ q v

  cut : q.str ≡ pre₁ ++ (ip ++ b':' ∷ port)
  cut = v.str ∙ regroup kw nick (b' ' ∷ []) (ip ++ b':' ∷ port)

  both_splits : split_connect_to_me (begun q) ≡ p₂
  unfolding split_connect_to_me set_chunk
  both_splits =
      ap (checked (split_chunk_byte b':' 2 3 4 true)) first_split
      ∙ checked-ok (split_chunk_byte b':' 2 3 4 true) p₁ (
          split_chunk_byte-append p₁ 2 3 4 pre₁ ip port whole b':'
            (split_at-IsChunk (begun q) 1 2 kw nick (b' ' ∷ []) (ip ++ b':' ∷ port)
              (rw length-set (omega (arith, room))) short v.str)
            cut i)

  abbrev done : Parser
  done = record p₂ { modified = false }

  -- The chunks that hold the three parts.
  inside : (n : ℕ) → n < 10 → n < length done.chunks
  inside n h = simp length-set_chunk (rw room h)

  part_nick : (chunk_string done 1).0 ≡ nick
  unfolding set_chunk
  part_nick =
      chunk_string-cut done 1 kw nick (b' ' ∷ (ip ++ b':' ∷ port)) (λ e. cc)
        (inside 1 (omega arith)) (omega (arith, v.strings))
        (unfold get_or replicate in rw v.str_map) (unfold set get_or replicate in rw v.chunks) short
        v.str

  part_ip : (chunk_string done 3).0 ≡ ip
  unfolding set_chunk
  part_ip =
      chunk_string-cut done 3 pre₁ ip (b':' ∷ port) (λ e. cc) (inside 3 (omega arith))
        (omega (arith, v.strings)) (unfold get_or replicate in rw v.str_map)
        (unfold set get_or replicate in rw v.chunks) short cut

  part_port : (chunk_string done 4).0 ≡ port
  unfolding set_chunk
  part_port =
      chunk_string-cut done 4 (pre₁ ++ (ip ++ b':' ∷ [])) port [] (λ e. cc) (inside 4 (omega arith))
        (omega (arith, v.strings)) (unfold get_or replicate in rw v.str_map)
        (unfold set get_or replicate in
          rw v.chunks (
            rw (length-append pre₁ (ip ++ b':' ∷ []), length-append ip (b':' ∷ [])) (ground arith)))
        short (cut ∙ simp (append_assoc, append-nil))

  no_error : done.error ≡ false
  unfolding set_chunk
  no_error = v.error

  answer : split_chunks q ≡ (false, done)
  unfolding split_by_type
  answer =
      split_chunks-type q Command.connect_to_me v.type
      ∙ ap {B = Bool × Parser} (λ s. let r = record s { modified = false } in (r.error, r))
          both_splits
      ∙ ap {B = Bool × Parser} (λ e. (e, done)) no_error

-- A message "$ConnectToMe nick ip:port", with no blank in the nick and no colon in the address and
-- shorter than 2 ^ 31, received by a parser that was used before: it is split with no error, and
-- `ChunkString` gives back the nick, the address and the port.
pub connect_to_me-parts :
    (old : List Bytes) (nick ip port : Bytes)
    → length old ≡ 20
    → length (keyword Command.connect_to_me ++ (nick ++ b' ' ∷ (ip ++ b':' ∷ port))) < 2 ^ 31
    → Lacks b' ' nick
    → Lacks b':' ip
    → let s = keyword Command.connect_to_me ++ (nick ++ b' ' ∷ (ip ++ b':' ∷ port)) in
      (has_error old s ≡ false)
      × (part old s 1 ≡ nick)
      × (part old s 3 ≡ ip)
      × (part old s 4 ≡ port)
connect_to_me-parts old nick ip port room short n i =
    let rest = nick ++ b' ' ∷ (ip ++ b':' ∷ port) in
    let s = keyword Command.connect_to_me ++ rest in
    let q = parse (received old s) in
    let v = parse-IsParsed Command.connect_to_me old rest room tt in
    let small : length q.str < 2 ^ 31 = rw v.str short in
    let e = answer q nick ip port v small n i in
    (
      ap (λ r. r.0) e,
      ap (λ (r : Bool × Parser). (chunk_string r.1 1).0) e ∙ part_nick q nick ip port v small n i,
      ap (λ (r : Bool × Parser). (chunk_string r.1 3).0) e ∙ part_ip q nick ip port v small n i,
      ap (λ (r : Bool × Parser). (chunk_string r.1 4).0) e ∙ part_port q nick ip port v small n i,
    )
