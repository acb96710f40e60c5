-- ===== src/Guards.antt =====
-- src/cdcproto.cpp: the guards `CheckProtoLen`, `CheckProtoSyntax` and `CheckUserRights`, which the
-- handlers of the protocol's messages call first. A guard that refuses closes the connection with a
-- text; its log line is left out. `translate` is `gettext`, `format` is `autosprintf` on a
-- translated format.
pub mod Words
pub mod Refusals
use verlihub.Base.{
  ℕ, Bool, true, false, not, ◌||◌, Option, none, some, List, [], ◌==◌, leb, if◌then◌else◌, Bytes,
  bytes,
}
use verlihub.Message.{Parser}
use verlihub.Message.Command.{
  DcMsg, connect_to_me, rconnect_to_me, sr, search_pas, search, tths, tths_pas, my_info, ext_json,
  key, supports, validate_nick, version, my_hub_url, my_pass, to, bot_info, get_info, user_ip, kick,
  op_force_move, mconnect_to_me, msearch_pas, msearch, mcto, ban, tban, unban, get_ban_list, who_ip,
  get_topic, set_topic, my_nick, lock, in_, chat,
}
use verlihub.Message.Split.{split_chunks}

pub record Texts : Type 0 where
  pub translate : Bytes → Bytes
  pub format : Bytes → Bytes → Bytes

pub data CloseReason : Type 0 where
  syntax : CloseReason

-- The arguments of `ConnCloseMsg`.
pub record Closing : Type 0 where
  pub text : Bytes
  pub delay : ℕ
  pub reason : CloseReason

abbrev pub closing : Texts → Bytes → Bytes → Closing
closing texts form cmd = record {
  text = texts.format (texts.translate form) cmd;
  delay = 1000;
  reason = CloseReason.syntax;
}

-- The options `max_len_...`
pub record Limits : Type 0 where
  pub max_len_supports : ℕ
  pub max_len_version : ℕ
  pub max_len_myinfo : ℕ
  pub max_len_in : ℕ
  pub max_len_extjson : ℕ
  pub max_len_myhuburl : ℕ
  pub max_len_search : ℕ
  pub max_len_mynick : ℕ
  pub max_len_lock : ℕ

unfoldable pub length_limit : Limits → Option DcMsg → ℕ
length_limit c (some supports) = c.max_len_supports
length_limit c (some version) = c.max_len_version
length_limit c (some my_info) = c.max_len_myinfo
length_limit c (some in_) = c.max_len_in
length_limit c (some ext_json) = c.max_len_extjson
length_limit c (some my_hub_url) = c.max_len_myhuburl
length_limit c (some tths) = c.max_len_search
length_limit c (some tths_pas) = c.max_len_search
length_limit c (some search_pas) = c.max_len_search
length_limit c (some search) = c.max_len_search
length_limit c (some msearch_pas) = c.max_len_search
length_limit c (some msearch) = c.max_len_search
length_limit c (some my_nick) = c.max_len_mynick
length_limit c (some lock) = c.max_len_lock
length_limit c _ = 0

unfoldable pub long_command : Option DcMsg → Bytes
long_command (some supports) = bytes "Supports"
long_command (some version) = bytes "Version"
long_command (some my_info) = bytes "MyINFO"
long_command (some in_) = bytes "IN"
long_command (some ext_json) = bytes "ExtJSON"
long_command (some my_hub_url) = bytes "MyHubURL"
long_command (some tths) = bytes "SA"
long_command (some tths_pas) = bytes "SP"
long_command (some search_pas) = bytes "Search"
long_command (some search) = bytes "Search"
long_command (some msearch_pas) = bytes "Search"
long_command (some msearch) = bytes "Search"
long_command (some my_nick) = bytes "MyNick"
long_command (some lock) = bytes "Lock"
long_command _ = []

unfoldable pub check_proto_len : Texts → Limits → Parser → Option Closing
check_proto_len texts c p =
    let mlen = length_limit c p.type in
    if (mlen == 0) || leb p.len mlen
    then none
    else some (
        closing texts (bytes "Your client sent too long protocol command: %s")
          (long_command p.type))

unfoldable pub malformed_command : Texts → Option DcMsg → Bytes
malformed_command texts (some connect_to_me) = bytes "ConnectToMe"
malformed_command texts (some mconnect_to_me) = bytes "ConnectToMe"
malformed_command texts (some rconnect_to_me) = bytes "RevConnectToMe"
malformed_command texts (some sr) = bytes "SR"
malformed_command texts (some search_pas) = bytes "Search"
malformed_command texts (some search) = bytes "Search"
malformed_command texts (some msearch_pas) = bytes "Search"
malformed_command texts (some msearch) = bytes "Search"
malformed_command texts (some tths) = bytes "SA"
malformed_command texts (some tths_pas) = bytes "SP"
malformed_command texts (some my_info) = bytes "MyINFO"
malformed_command texts (some ext_json) = bytes "ExtJSON"
malformed_command texts (some key) = bytes "Key"
malformed_command texts (some supports) = bytes "Supports"
malformed_command texts (some validate_nick) = bytes "ValidateNick"
malformed_command texts (some version) = bytes "Version"
malformed_command texts (some my_hub_url) = bytes "MyHubURL"
malformed_command texts (some my_pass) = bytes "MyPass"
malformed_command texts (some to) = bytes "To"
malformed_command texts (some chat) = texts.translate (bytes "Chat")
malformed_command texts (some bot_info) = bytes "BotINFO"
malformed_command texts (some get_info) = bytes "GetINFO"
malformed_command texts (some user_ip) = bytes "UserIP"
malformed_command texts (some kick) = bytes "Kick"
malformed_command texts (some op_force_move) = bytes "OpForceMove"
malformed_command texts (some mcto) = bytes "MCTo"
malformed_command texts (some ban) = bytes "Ban"
malformed_command texts (some tban) = bytes "TempBan"
malformed_command texts (some unban) = bytes "UnBan"
malformed_command texts (some who_ip) = bytes "WhoIP"
malformed_command texts (some set_topic) = bytes "SetTopic"
malformed_command texts (some in_) = bytes "IN"
malformed_command texts _ = texts.translate (bytes "Unknown")

-- The message is split in any case.
unfoldable pub check_proto_syntax : Texts → Parser → Option Closing × Parser
check_proto_syntax texts p =
    let r = split_chunks p in
    (
      (if not r.0
          then none
          else some (
              closing texts (bytes "Your client sent malformed protocol command: %s")
                (malformed_command texts r.1.type))),
      r.1,
    )

unfoldable pub operator_command : Texts → Option DcMsg → Bytes
operator_command texts (some user_ip) = bytes "UserIP"
operator_command texts (some kick) = bytes "Kick"
operator_command texts (some op_force_move) = bytes "OpForceMove"
operator_command texts (some ban) = bytes "Ban"
operator_command texts (some tban) = bytes "TempBan"
operator_command texts (some unban) = bytes "UnBan"
operator_command texts (some get_ban_list) = bytes "GetBanList"
operator_command texts (some who_ip) = bytes "WhoIP"
operator_command texts (some get_topic) = bytes "GetTopic"
operator_command texts (some set_topic) = bytes "SetTopic"
operator_command texts _ = texts.translate (bytes "Unknown")

unfoldable pub check_user_rights : Texts → Parser → Bool → Option Closing
check_user_rights texts p cond =
    if cond
    then none
    else some (
        closing texts (bytes "You have no rights to perform following operator action: %s")
          (operator_command texts p.type))
