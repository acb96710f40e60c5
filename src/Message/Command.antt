-- ===== src/Message/Command.antt =====
-- src/cmessagedc.{h,cpp} and src/cprotocommand.cpp: the commands of the protocol and the words that
-- they begin with.
use verlihub.Base.{
  Bool, false, ◌&&◌, not, Option, none, some, List, [], ◌∷◌, bytes, Bytes, starts_with,
  if◌then◌else◌,
}

-- `tDCMsg`, in its order
pub data DcMsg : Type 0 where
  connect_to_me rconnect_to_me sr search_pas search tths tths_pas my_info ext_json key : DcMsg
  supports validate_nick version get_nick_list my_hub_url my_pass to bot_info get_info user_ip :
      DcMsg
  kick op_force_move mconnect_to_me msearch_pas msearch mcto quit ban tban unban : DcMsg
  get_ban_list who_ip get_topic set_topic my_ip my_nick lock in_ chat unknown : DcMsg

-- The words of `sDC_Commands`; `unknown` has none.
unfoldable pub keyword : DcMsg → Bytes
keyword connect_to_me = bytes "$ConnectToMe "
keyword rconnect_to_me = bytes "$RevConnectToMe "
keyword sr = bytes "$SR "
keyword search_pas = bytes "$Search Hub:"
keyword search = bytes "$Search "
keyword tths = bytes "$SA "
keyword tths_pas = bytes "$SP "
keyword my_info = bytes "$MyINFO "
keyword ext_json = bytes "$ExtJSON "
keyword key = bytes "$Key "
keyword supports = bytes "$Supports "
keyword validate_nick = bytes "$ValidateNick "
keyword version = bytes "$Version "
keyword get_nick_list = bytes "$GetNickList"
keyword my_hub_url = bytes "$MyHubURL "
keyword my_pass = bytes "$MyPass "
keyword to = bytes "$To: "
keyword bot_info = bytes "$BotINFO "
keyword get_info = bytes "$GetINFO "
keyword user_ip = bytes "$UserIP "
keyword kick = bytes "$Kick "
keyword op_force_move = bytes "$OpForceMove $Who:"
keyword mconnect_to_me = bytes "$MultiConnectToMe "
keyword msearch_pas = bytes "$MultiSearch Hub:"
keyword msearch = bytes "$MultiSearch "
keyword mcto = bytes "$MCTo: "
keyword quit = bytes "$Quit "
keyword ban = bytes "$Ban "
keyword tban = bytes "$TempBan "
keyword unban = bytes "$UnBan "
keyword get_ban_list = bytes "$GetBanList"
keyword who_ip = bytes "$WhoIP "
keyword get_topic = bytes "$GetTopic"
keyword set_topic = bytes "$SetTopic "
keyword my_ip = bytes "$MyIP "
keyword my_nick = bytes "$MyNick "
keyword lock = bytes "$Lock "
keyword in_ = bytes "$IN "
keyword chat = bytes "<"
keyword unknown = []

-- The commands that the loop of `Parse` tries, in its order: all before `eDC_CHAT`.
abbrev pub commands : List DcMsg
commands =
    connect_to_me ∷ rconnect_to_me ∷ sr ∷ search_pas ∷ search ∷ tths ∷ tths_pas ∷ my_info ∷ ext_json
    ∷ key ∷ supports ∷ validate_nick ∷ version ∷ get_nick_list ∷ my_hub_url ∷ my_pass ∷ to
    ∷ bot_info ∷ get_info ∷ user_ip ∷ kick ∷ op_force_move ∷ mconnect_to_me ∷ msearch_pas ∷ msearch
    ∷ mcto ∷ quit ∷ ban ∷ tban ∷ unban ∷ get_ban_list ∷ who_ip ∷ get_topic ∷ set_topic ∷ my_ip
    ∷ my_nick ∷ lock ∷ in_ ∷ []

abbrev pub is_empty : Bytes → Bool
is_empty [] = Bool.true
is_empty (c ∷ s) = false

-- `cProtoCommand::AreYou`
unfoldable pub are_you : Bytes → Bytes → Bool
are_you cmd str = not (is_empty str) && starts_with cmd str

-- The first command of a list that begins a message.
unfoldable pub first_command : List DcMsg → Bytes → Option DcMsg
first_command [] str = none
first_command (c ∷ cs) str =
    let rest = first_command cs str in if are_you (keyword c) str then some c else rest
