-- ===== src/Backend/CmdClientReq/Encode.antt =====
-- The packets that the client prepares are those of the protocol.
use hq_components.Prelude.{Bool-cases, arith, if◌then◌else◌, inl, inr, not, ℕ, ◌%◌, ◌<◌, ◌==◌, ◌≡◌}
use hq_components.Backend.CmdClientReq.{prepare_u32_msg, pc_set_uint32, pc_get_uint32}
use hq_components.Backend.ParseCmd.Serve.{Mode, ask, tell, read_value, write_value, encode}

-- A client that gives a request no time does not wait for the answer.
abbrev pub mode_of : ℕ → Mode
mode_of wait = if wait == 0 then tell else ask

-- A read request of a value is the packet that stands for it, and it keeps a buffer for the answer
-- exactly if the client waits.
pub prepare_u32_msg-read :
    (number val value wait : ℕ)
    → val < 256
    → let msg = prepare_u32_msg number val value pc_get_uint32 wait in
      (msg.send_data
        ≡ encode (record { number = number; mode = mode_of wait; call = read_value val }))
      × (msg.has_rx ≡ not (wait == 0))
      × (msg.request_number ≡ number)
unfolding prepare_u32_msg
prepare_u32_msg-read number val value wait h =
    let e : val % 256 ≡ val = omega arith in
    elim (Bool-cases (wait == 0)) [
      | inl b ↦ (rw (b, e), rw b, rw b)
      | inr b ↦ (rw (b, e), rw b, rw b)
    ]

-- The packet that the client prepares to write a value of a parameter is the packet that stands for
-- that request, told where the client gives it no time and asked else; a buffer for the answer is
-- kept exactly if it waits, and the request carries the number it was given.
pub prepare_u32_msg-write :
    (number val value wait : ℕ)
    → val < 256
    → let msg = prepare_u32_msg number val value pc_set_uint32 wait in
      (msg.send_data
        ≡ encode (record { number = number; mode = mode_of wait; call = write_value val value }))
      × (msg.has_rx ≡ not (wait == 0))
      × (msg.request_number ≡ number)
unfolding prepare_u32_msg
prepare_u32_msg-write number val value wait h =
    let e : val % 256 ≡ val = omega arith in
    elim (Bool-cases (wait == 0)) [
      | inl b ↦ (rw (b, e), rw b, rw b)
      | inr b ↦ (rw (b, e), rw b, rw b)
    ]
