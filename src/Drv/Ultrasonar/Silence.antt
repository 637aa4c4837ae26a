-- ===== src/Drv/Ultrasonar/Silence.antt =====
-- When the sensor counts as disconnected.
use hq_components.Prelude.{
  Bool-cases, List, [], arith, false, if◌then◌else◌, inl, inr, length, ltb, ltb→le, ltb→lt, refl,
  u8, ℕ, ◌&&◌, ◌+◌, ◌∷◌, ◌≡◌, ◌≢◌, ◌≤◌,
}
use hq_components.Drv.Ultrasonar.Frames.{at_byte-noise}
use hq_components.Drv.Ultrasonar.{Sonar, scan, round, rounds}

-- No byte starts a frame.
abbrev pub NoStart : List ℕ → Type 0
NoStart [] = Unit {0}
NoStart (b ∷ bs) = (b ≢ 255) × NoStart bs

abbrev pub AllNoStart : List (List ℕ) → Type 0
AllNoStart [] = Unit {0}
AllNoStart (bs ∷ reads) = NoStart bs × AllNoStart reads

scan-NoStart : (bs : List ℕ) (s : Sonar) → NoStart bs → scan bs 0 false s ≡ (false, s)
unfolding scan
scan-NoStart [] s h = refl
scan-NoStart (b ∷ bs) s (ne, h) = rw (at_byte-noise b bs false s ne) (scan-NoStart bs s h)

-- The state after a round without a distance.
abbrev pub missed : Sonar → Sonar
missed s = record s {
  silos_is_connected = if ltb 5 s.bad_read_data_count then false else s.silos_is_connected;
  bad_read_data_count = u8 (s.bad_read_data_count + 1);
}

rounds-missed :
    (bs : List ℕ) (reads : List (List ℕ)) (s : Sonar)
    → NoStart bs
    → rounds (bs ∷ reads) s ≡ rounds reads (missed s)
unfolding rounds round
rounds-missed bs reads s h = rw (scan-NoStart bs s h) refl

rounds-disconnected :
    (reads : List (List ℕ)) (s : Sonar)
    → AllNoStart reads
    → s.silos_is_connected ≡ false
    → (rounds reads s).silos_is_connected ≡ false
unfolding rounds
rounds-disconnected [] s a e = e
rounds-disconnected (bs ∷ reads) s (h, a) e =
    rw (rounds-missed bs reads s h) (rounds-disconnected reads (missed s) a (rw e (ground arith)))

-- While no byte of a read starts a frame, a connected sensor counts as connected for as many
-- rounds as its counter is below 7, and as disconnected in every round after them.
pub rounds-silence :
    (reads : List (List ℕ)) (s : Sonar)
    → AllNoStart reads
    → s.bad_read_data_count ≤ 6
    → (rounds reads s).silos_is_connected
      ≡ (s.silos_is_connected && ltb (s.bad_read_data_count + length reads) 7)
unfolding rounds
rounds-silence [] s a h = ground arith
rounds-silence (bs ∷ reads) s (h, a) le = elim (Bool-cases (ltb 5 s.bad_read_data_count)) [
  | inl t ↦
      rw (rounds-missed bs reads s h, rounds-disconnected reads (missed s) a (rw t refl))
        (ground (arith, ltb→lt 5 s.bad_read_data_count t))
  | inr f ↦
      let few = ltb→le 5 s.bad_read_data_count f in
      rw (rounds-missed bs reads s h, rounds-silence reads (missed s) a (omega arith), f)
        (ground (arith, few))
]
