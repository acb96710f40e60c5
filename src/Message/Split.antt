-- ===== src/Message/Split.antt =====
-- src/cmessagedc.cpp: `cMessageDC::Parse` and `cMessageDC::SplitChunks`. Chunk numbers are those of
-- the enumerations in src/cmessagedc.h; chunk 0 is the whole message.
use verlihub.Base.{
  ℕ, ◌-◌, Bool, true, false, Option, none, some, [], ◌∷◌, pos, ◌==◌, ltb, if◌then◌else◌, length,
  bytes, Bytes,
}
use verlihub.Message.{
  Parser, set_chunk, split_on_text, split_on_byte, split_chunk_byte, split_chunk_text,
  chunk_red_left, chunk_red_right, chunk_inc_left,
}
use verlihub.Message.Command.{
  DcMsg, connect_to_me, rconnect_to_me, sr, search_pas, search, tths, tths_pas, my_info, ext_json,
  key, supports, validate_nick, version, my_hub_url, my_pass, to, bot_info, get_info, user_ip, kick,
  op_force_move, mconnect_to_me, msearch_pas, msearch, mcto, quit, ban, tban, unban, who_ip,
  set_topic, my_ip, my_nick, lock, in_, chat, unknown, keyword, commands, first_command,
}

-- The end of `Parse` after the loop; a type that was set before stays if no command fits.
unfoldable pub found_command : Parser → Bytes → Option DcMsg → Parser
found_command p str (some c) = record p {
  type = some c;
  kw_size = length (keyword c);
  len = length str;
}
found_command p str none = record p {
  type = (elim p.type [ none ↦ some unknown | some t ↦ some t ]);
}

-- `Parse` with the text `mStr` as an argument of its own.
unfoldable pub parse_text : Bytes → Parser → Parser
parse_text [] p = record p { type = some unknown; kw_size = 0; len = 0 }
parse_text (c ∷ s) p =
    if c == b'<'
    then record p { type = some chat; kw_size = length (keyword chat); len = length (c ∷ s) }
    else found_command p (c ∷ s) (first_command commands (c ∷ s))

unfoldable pub parse : Parser → Parser
unfolding parse_text found_command
parse p = parse_text p.str p

-- `if (!f) mError = true;`
unfoldable pub checked : (Parser → Bool × Parser) → Parser → Parser
checked f p = let r = f p in if r.0 then r.1 else record r.1 { error = true }

unfoldable pub split_connect_to_me : Parser → Parser
split_connect_to_me p =
    let p₁ = checked (split_on_byte b' ' p.kw_size 1 2 0 true) p in
    checked (split_chunk_byte b':' 2 3 4 true) p₁

-- Two parameters with a byte between them.
unfoldable pub split_two : ℕ → Parser → Parser
split_two lim p = checked (split_on_byte lim p.kw_size 1 2 0 true) p

-- The branch of `eDC_SR` on the last split.
split_sr_size : Bool × Parser → Parser
split_sr_size (true, p) =
    checked (split_chunk_byte b'/' 4 5 6 true) (checked (split_chunk_byte b' ' 3 3 4 true) p)
split_sr_size (false, p) = set_chunk p 3 (pos 0) (pos 0)

unfoldable pub split_sr : Parser → Parser
unfolding split_sr_size
split_sr p =
    let p₁ = checked (split_on_byte b' ' p.kw_size 1 2 0 true) p in
    let p₂ = checked (split_chunk_byte 5 2 2 3 true) p₁ in
    let p₃ = checked (split_chunk_byte 5 3 7 8 false) p₂ in
    split_sr_size (split_chunk_byte 5 7 3 7 true p₃)

unfoldable pub split_search_pas : Parser → Parser
split_search_pas p =
    let p₁ = checked (split_on_byte b' ' p.kw_size 1 2 0 true) p in
    let p₂ = checked (split_chunk_byte b'?' 2 3 4 false) p₁ in checked (chunk_inc_left 3 1) p₂

unfoldable pub split_search : Parser → Parser
split_search p =
    let p₁ = checked (split_on_byte b' ' p.kw_size 1 4 0 true) p in
    let p₂ = checked (split_chunk_byte b':' 1 2 3 true) p₁ in
    let p₃ = checked (split_chunk_byte b' ' 3 3 4 true) p₂ in
    let p₄ = checked (split_chunk_byte b'?' 4 5 6 false) p₃ in checked (chunk_inc_left 5 1) p₄

unfoldable pub split_tths : Parser → Parser
split_tths p =
    let p₁ = checked (split_on_byte b' ' p.kw_size 1 2 0 true) p in
    checked (split_chunk_byte b':' 2 3 4 true) p₁

unfoldable pub split_my_info : Parser → Parser
split_my_info p =
    let p₁ = checked (split_on_byte b' ' p.kw_size 1 2 0 true) p in
    let p₂ = checked (split_chunk_byte b' ' 2 2 3 true) p₁ in
    let p₃ = checked (split_chunk_byte b'$' 3 4 5 true) p₂ in
    let p₄ = checked (chunk_red_left 5 2) p₃ in
    let p₅ = checked (split_chunk_byte b'$' 5 5 6 true) p₄ in
    let p₆ = checked (split_chunk_byte b'$' 6 6 7 true) p₅ in checked (chunk_red_right 7 1) p₆

-- The commands with a single parameter.
unfoldable pub split_parameter : Parser → Parser
split_parameter p =
    if ltb p.len p.kw_size
    then record p { error = true }
    else set_chunk p 1 (pos p.kw_size) (pos (p.len - p.kw_size))

unfoldable pub split_to : Parser → Parser
split_to p =
    let p₁ = checked (split_on_text (bytes " From: ") p.kw_size 1 2 0 true) p in
    let p₂ = checked (split_chunk_text (bytes " $<") 2 2 3 true) p₁ in
    checked (split_chunk_text (bytes "> ") 3 4 5 true) p₂

unfoldable pub split_chat : Parser → Parser
split_chat p = checked (split_on_text (bytes "> ") p.kw_size 1 2 0 true) p

unfoldable pub split_op_force_move : Parser → Parser
split_op_force_move p =
    let p₁ = checked (split_on_byte b'$' p.kw_size 1 2 0 true) p in
    let p₂ = checked (chunk_red_left 2 6) p₁ in
    let p₃ = checked (split_chunk_byte b'$' 2 2 3 true) p₂ in checked (chunk_red_left 3 4) p₃

unfoldable pub split_mcto : Parser → Parser
split_mcto p =
    let p₁ = checked (split_on_text (bytes " $") p.kw_size 1 2 0 true) p in
    checked (split_chunk_byte b' ' 2 3 4 true) p₁

unfoldable pub split_tban : Parser → Parser
split_tban p =
    let p₁ = checked (split_on_byte b'$' p.kw_size 1 3 0 true) p in
    checked (split_chunk_byte b'$' 3 3 2 true) p₁

-- The switch of `SplitChunks`.
unfoldable pub split_by_type : Option DcMsg → Parser → Parser
split_by_type (some connect_to_me) p = split_connect_to_me p
split_by_type (some mconnect_to_me) p = split_connect_to_me p
split_by_type (some rconnect_to_me) p = split_two b' ' p
split_by_type (some sr) p = split_sr p
split_by_type (some search_pas) p = split_search_pas p
split_by_type (some msearch_pas) p = split_search_pas p
split_by_type (some search) p = split_search p
split_by_type (some msearch) p = split_search p
split_by_type (some tths) p = split_tths p
split_by_type (some tths_pas) p = split_two b' ' p
split_by_type (some my_info) p = split_my_info p
split_by_type (some ext_json) p = split_two b' ' p
split_by_type (some key) p = split_parameter p
split_by_type (some supports) p = split_parameter p
split_by_type (some validate_nick) p = split_parameter p
split_by_type (some version) p = split_parameter p
split_by_type (some my_hub_url) p = split_parameter p
split_by_type (some my_pass) p = split_parameter p
split_by_type (some bot_info) p = split_parameter p
split_by_type (some user_ip) p = split_parameter p
split_by_type (some kick) p = split_parameter p
split_by_type (some quit) p = split_parameter p
split_by_type (some unban) p = split_parameter p
split_by_type (some who_ip) p = split_parameter p
split_by_type (some set_topic) p = split_parameter p
split_by_type (some my_nick) p = split_parameter p
split_by_type (some lock) p = split_parameter p
split_by_type (some my_ip) p = split_two b' ' p
split_by_type (some to) p = split_to p
split_by_type (some chat) p = split_chat p
split_by_type (some get_info) p = split_two b' ' p
split_by_type (some op_force_move) p = split_op_force_move p
split_by_type (some mcto) p = split_mcto p
split_by_type (some ban) p = split_two b'$' p
split_by_type (some tban) p = split_tban p
split_by_type (some in_) p = split_two b'$' p
split_by_type _ p = p

-- The result is `mError`, also where it was set before.
unfoldable pub split_chunks : Parser → Bool × Parser
split_chunks p =
    let q = split_by_type p.type (set_chunk p 0 (pos 0) (pos (length p.str))) in
    let r = record q { modified = false } in (r.error, r)
