-- ===== src/Tests/Guards.antt =====
-- The guards on messages.
use verlihub.Base.{
  find_byte_from, drop, take, set, get_or, find_last_byte_to, find_last_byte, ◌++◌, ◌||◌, ◌==◌, leb,
  length, if◌then◌else◌, ◌≡◌, refl, Bool, none, some, [], bytes, replicate, starts_with, find_byte,
}
use verlihub.Message.{
  chunk_string, Parser, split_on_byte, split_chunk_byte, new_parser, re_init, split_left,
  split_right, set_both, set_chunk,
}
use verlihub.Message.Command.{DcMsg, keyword, first_command, are_you}
use verlihub.Message.Parsed.{received}
use verlihub.Message.Split.{
  parse, parse_text, found_command, split_chunks, split_by_type, split_connect_to_me, checked,
}
use verlihub.Guards.{
  Texts, Limits, closing, length_limit, long_command, malformed_command, operator_command,
  check_proto_len, check_proto_syntax, check_user_rights,
}
use verlihub.Guards.Words.{name_in, limits_of, limit_of}
use verlihub.Guards.Refusals.{check_proto_len-received}

abbrev plain : Texts
plain = record { translate = λ s. s; format = λ form cmd. cmd }

abbrev limits : Limits
limits = record {
  max_len_supports = 512;
  max_len_version = 64;
  max_len_myinfo = 1024;
  max_len_in = 1024;
  max_len_extjson = 0;
  max_len_myhuburl = 256;
  max_len_search = 20;
  max_len_mynick = 64;
  max_len_lock = 256;
}

abbrev long_search : Parser
long_search = parse (received (replicate 20 []) (bytes "$Search Hub:ann F?T?0?9?TTH:ABC"))

long_search-type : long_search.type ≡ some DcMsg.search_pas
unfolding parse parse_text found_command first_command are_you keyword starts_with
long_search-type = refl

check_proto_len-received_example :
    let name = name_in (keyword DcMsg.search_pas) in
    let most = limit_of (limits_of limits) name in
    check_proto_len plain limits
      (parse (received (replicate 20 []) (keyword DcMsg.search_pas ++ bytes "ann F?T?0?9?TTH:ABC")))
    ≡ (if (most == 0) || leb (length (keyword DcMsg.search_pas ++ bytes "ann F?T?0?9?TTH:ABC")) most
        then none
        else some (closing plain (bytes "Your client sent too long protocol command: %s") name))
unfolding replicate
check_proto_len-received_example =
    check_proto_len-received plain limits DcMsg.search_pas (replicate 20 [])
      (bytes "ann F?T?0?9?TTH:ABC") refl tt

too_long :
    check_proto_len plain limits long_search
    ≡ some (closing plain (bytes "Your client sent too long protocol command: %s") (bytes "Search"))
unfolding check_proto_len length_limit long_command parse parse_text found_command first_command
    are_you keyword starts_with
too_long = refl

no_rights :
    check_user_rights plain (record long_search { type = some DcMsg.kick }) Bool.false
    ≡ some (
        closing plain
          (bytes "You have no rights to perform following operator action: %s")
          (bytes "Kick"))
unfolding check_user_rights operator_command
no_rights = refl

-- A message that cannot be split is refused with the name of its command.
malformed :
    (check_proto_syntax plain (parse (received (replicate 20 []) (bytes "$ConnectToMe bob")))).0
    ≡ some (
        closing plain
          (bytes "Your client sent malformed protocol command: %s")
          (bytes "ConnectToMe"))
unfolding check_proto_syntax malformed_command parse parse_text found_command split_chunks
    split_by_type split_connect_to_me checked split_on_byte split_chunk_byte new_parser re_init
    replicate first_command are_you keyword starts_with find_byte_from find_byte drop take
    split_left split_right set_both set_chunk set get_or chunk_string find_last_byte_to
    find_last_byte
malformed = refl
