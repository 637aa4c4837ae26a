-- ===== src/Backend/Frame.antt =====
-- backend/parse_cmd.h and drv/error_code.h: the numbers of the command protocol, and the layout of
-- one packet of 64 bytes.
use hq_components.Prelude.{List, le_bytes, length, replicate, ℕ, ◌++◌, ◌-◌, ◌∷◌}

abbrev pub cmd_request : ℕ
cmd_request = 0x11

abbrev pub cmd_answer : ℕ
cmd_answer = 0x22

abbrev pub cmd_data : ℕ
cmd_data = 0x33

abbrev pub positive_resp : ℕ
positive_resp = 0xff

abbrev pub negative_resp : ℕ
negative_resp = 0xfe

-- FRAME_LEN_POS, FRAME_REQ_NUMBER_POS, FRAME_CMD_POS, FRAME_PARSE_TYPE_POS,
-- FRAME_VALUE_TYPE_POS and FRAME_VALUE_POS.
abbrev pub len_pos : ℕ
len_pos = 0

abbrev pub req_number_pos : ℕ
req_number_pos = 1

abbrev pub cmd_pos : ℕ
cmd_pos = 5

abbrev pub parse_type_pos : ℕ
parse_type_pos = 6

abbrev pub value_type_pos : ℕ
value_type_pos = 7

abbrev pub value_pos : ℕ
value_pos = 8

abbrev pub packet_size : ℕ
packet_size = 64

-- parseType_t
abbrev pub pc_keep_alive : ℕ
pc_keep_alive = 0

abbrev pub pc_set_uint32 : ℕ
pc_set_uint32 = 1

abbrev pub pc_get_uint32 : ℕ
pc_get_uint32 = 2

abbrev pub pc_set_string : ℕ
pc_set_string = 3

abbrev pub pc_get_string : ℕ
pc_get_string = 4

-- error_code_t, the part that the protocol uses.
pub data ErrorCode : Type 0 where
  ok fail timed_out queue_is_full : ErrorCode

-- The packet that the protocol means: its length, the request's number, the command, the type of
-- the request, the parameter, and the payload, filled up with zeros.
abbrev pub packet : ℕ → ℕ → ℕ → ℕ → List ℕ → List ℕ
packet number cmd kind val payload =
    packet_size
    ∷ (le_bytes number ++ (cmd ∷ kind ∷ val ∷ (payload ++ replicate (56 - length payload) 0)))
