-- ===== src/Tests/Messages.antt =====
-- Messages of the protocol.
use verlihub.Base.{
  ◌≡◌, refl, true, false, List, [], ◌∷◌, some, replicate, get_or, set, starts_with, find_byte,
  find_text, find_text_from, find_byte_from, find_last_byte, find_last_byte_to, drop, take, substr,
  bytes, Bytes, ℕ, map, length, ◌++◌, ◌⊎◌, ◌≢◌, arith,
}
use verlihub.Message.{
  Parser, new_parser, re_init, set_chunk, set_both, split_left, split_right, split_on_text,
  split_on_byte, split_chunk_byte, split_chunk_text, chunk_red_left, chunk_red_right,
  chunk_inc_left, chunk_string, cut_chunk,
}
use verlihub.Message.Command
use verlihub.Message.Parsed.{received, part, has_error}
use verlihub.Message.Recognise.{All, parse-keyword, parse-exact}
use verlihub.Message.ConnectToMe.{connect_to_me-parts}
use verlihub.Message.Single.{has_single, single-part}
use verlihub.Message.Private.{private_text, ArePlain, private-parts}
use verlihub.Message.Command.{DcMsg, commands, keyword, are_you, first_command}
use verlihub.Message.Split.{
  parse, checked, split_chunks, split_by_type, split_connect_to_me, split_two, split_sr,
  split_search_pas, split_search, split_tths, split_my_info, split_parameter, split_to, split_chat,
  split_op_force_move, split_mcto, split_tban,
}

program : Unit {0}
unfolding parse split_chunks split_by_type split_connect_to_me split_two split_sr split_search_pas
    split_search split_tths split_my_info split_parameter split_to split_chat split_op_force_move
    split_mcto split_tban checked split_on_byte split_on_text split_chunk_byte split_chunk_text
    chunk_red_left chunk_red_right chunk_inc_left new_parser re_init replicate first_command are_you
    keyword starts_with find_byte_from find_byte find_text_from find_text find_last_byte_to
    find_last_byte drop take split_left split_right set_both set_chunk set get_or chunk_string
    cut_chunk substr
program = tt

abbrev old : List Bytes
old = replicate 20 (bytes "stale")

abbrev parts : Bytes → List ℕ → List Bytes
parts s cs = map (part old s) cs

connect :
    parts (bytes "$ConnectToMe bob 1.2.3.4:412") (1 ∷ 3 ∷ 4 ∷ [])
    ≡ bytes "bob" ∷ bytes "1.2.3.4" ∷ bytes "412" ∷ []
unfolding program
connect = refl

private :
    parts (bytes "$To: ann From: bob $<bob> hi") (1 ∷ 2 ∷ 4 ∷ 5 ∷ [])
    ≡ bytes "ann" ∷ bytes "bob" ∷ bytes "bob" ∷ bytes "hi" ∷ []
unfolding program
private = refl

my_info :
    parts (bytes "$MyINFO $ALL bob desc$ $LAN(T3)1$mail$1024$") (1 ∷ 2 ∷ 4 ∷ 5 ∷ 6 ∷ 7 ∷ [])
    ≡ bytes "$ALL"
      ∷ bytes "bob"
      ∷ bytes "desc"
      ∷ bytes "LAN(T3)1"
      ∷ bytes "mail"
      ∷ bytes "1024"
      ∷ []
unfolding program
my_info = refl

search_parts :
    parts (bytes "$Search 1.2.3.4:412 F?T?0?9?TTH:A") (2 ∷ 3 ∷ 5 ∷ 6 ∷ [])
    ≡ bytes "1.2.3.4" ∷ bytes "412" ∷ bytes "F?T?0?9?" ∷ bytes "TTH:A" ∷ []
unfolding program
search_parts = refl

malformed : has_error old (bytes "$ConnectToMe bob 1.2.3.4") ≡ true
unfolding program
malformed = refl

abbrev example : Parser
example = received old (bytes "$Search Huh:x")

parse-keyword_example : parse example ≡ record example {
  type = some Command.search;
  kw_size = length (keyword Command.search);
  len = length example.str;
}
unfolding keyword starts_with
parse-keyword_example = parse-keyword Command.search (bytes "Huh:x") example refl refl

parse-exact_example :
    ((t : DcMsg)
      → (parse example).type ≡ some t
      → t ≢ Command.unknown
      → (starts_with (keyword t) example.str ≡ true)
        × ((parse example).kw_size ≡ length (keyword t))
        × ((parse example).len ≡ length example.str))
    × ((parse example).type ≡ some Command.unknown
        → (example.str ≡ [])
          ⊎ All (λ c. starts_with (keyword c) example.str ≡ false) (commands ++ Command.chat ∷ []))
unfolding re_init
parse-exact_example = parse-exact example refl

connect_to_me-parts_example :
    let s =
      keyword Command.connect_to_me
      ++ (bytes "bob" ++ b' ' ∷ (bytes "1.2.3.4" ++ b':' ∷ bytes "412")) in
    (has_error old s ≡ false)
    × (part old s 1 ≡ bytes "bob")
    × (part old s 3 ≡ bytes "1.2.3.4")
    × (part old s 4 ≡ bytes "412")
unfolding keyword replicate find_byte
connect_to_me-parts_example =
    connect_to_me-parts old (bytes "bob") (bytes "1.2.3.4") (bytes "412") refl (omega arith) refl
      refl

single-part_example :
    let s = keyword Command.validate_nick ++ bytes "bob" in
    (has_error old s ≡ false) × (part old s 1 ≡ bytes "bob")
unfolding keyword replicate has_single
single-part_example = single-part Command.validate_nick old (bytes "bob") refl refl (omega arith)

plain_parts : ArePlain (bytes "ann") (bytes "bob") (bytes "bob") (bytes "hi > there")
unfolding starts_with
plain_parts = record {
  recipient_plain = (refl, (refl, (refl, refl)));
  sender_plain = (refl, (refl, (refl, refl)));
  nick_plain = (refl, (refl, (refl, refl)));
}

private-parts_example :
    let s =
      keyword Command.to
      ++ private_text (bytes "ann") (bytes "bob") (bytes "bob") (bytes "hi > there") in
    (has_error old s ≡ false)
    × (part old s 1 ≡ bytes "ann")
    × (part old s 2 ≡ bytes "bob")
    × (part old s 4 ≡ bytes "bob")
    × (part old s 5 ≡ bytes "hi > there")
unfolding keyword replicate
private-parts_example =
    private-parts old (bytes "ann") (bytes "bob") (bytes "bob") (bytes "hi > there") refl
      (omega arith) plain_parts
