-- ===== src/Drv/Ultrasonar/Frames.antt =====
-- The frames of the sensor.
use hq_components.Prelude.{
  Bool, List, [], arith, false, ltb, refl, suc, true, ℕ, ◌%◌, ◌*◌, ◌++◌, ◌+◌, ◌/◌, ◌∷◌, ◌≡◌, ◌≢◌,
  ◌≤◌,
}
use hq_components.Drv.Ultrasonar.{Sonar, reading, at_byte, scan}

-- The bytes of a frame.
unfoldable pub frame : ℕ → List ℕ
frame v = 255 ∷ v / 256 ∷ v % 256 ∷ []

-- Bytes on the line: frames, with other bytes between them.
pub data Part : Type 0 where
  noise : (b : ℕ) → b ≢ 255 → Part
  distance_of : (v : ℕ) → v ≤ 3100 → Part

unfoldable pub line : List Part → List ℕ
unfolding frame
line [] = []
line (noise b ne ∷ ps) = b ∷ line ps
line (distance_of v h ∷ ps) = frame v ++ line ps

-- What the parts say, one reading after the other.
unfoldable pub heard : List Part → Bool → Sonar → Bool × Sonar
heard [] ok s = (ok, s)
heard (noise b ne ∷ ps) ok s = heard ps ok s
heard (distance_of v h ∷ ps) ok s = heard ps true (reading v s)

pub at_byte-noise :
    (b : ℕ) (bs : List ℕ) (ok : Bool) (s : Sonar) → b ≢ 255 → at_byte b bs ok s ≡ (0, ok, s)
unfolding at_byte
at_byte-noise b [] ok s ne = refl
at_byte-noise b (h ∷ []) ok s ne = refl
at_byte-noise b (h ∷ l ∷ bs) ok s ne = ground (arith, ne)

at_byte-frame :
    (v : ℕ) (bs : List ℕ) (ok : Bool) (s : Sonar)
    → v ≤ 3100
    → at_byte 255 (v / 256 ∷ v % 256 ∷ bs) ok s ≡ (2, true, reading v s)
unfolding at_byte
at_byte-frame v bs ok s h =
    let joined : v / 256 * 256 + v % 256 ≡ v = omega arith in
    let near : ltb 3100 v ≡ false = ground (arith, h) in rw (joined, near) refl

scan-nil : (ok : Bool) (s : Sonar) → scan [] 0 ok s ≡ (ok, s)
unfolding scan
scan-nil ok s = refl

scan-next :
    (b : ℕ) (bs : List ℕ) (ok : Bool) (s : Sonar)
    → scan (b ∷ bs) 0 ok s ≡ (let (k, r, t) = at_byte b bs ok s in scan bs k r t)
unfolding scan
scan-next b bs ok s = refl

scan-skip :
    (b : ℕ) (bs : List ℕ) (k : ℕ) (ok : Bool) (s : Sonar)
    → scan (b ∷ bs) (suc k) ok s ≡ scan bs k ok s
unfolding scan
scan-skip b bs k ok s = refl

-- The parser takes exactly the distances of the frames on the line, in their order, whatever bytes
-- but 0xFF stand between the frames.
pub scan-line : (ps : List Part) (ok : Bool) (s : Sonar) → scan (line ps) 0 ok s ≡ heard ps ok s
unfolding line heard
scan-line [] ok s = scan-nil ok s
scan-line (noise b ne ∷ ps) ok s =
    rw (scan-next b (line ps) ok s, at_byte-noise b (line ps) ok s ne) (scan-line ps ok s)
scan-line (distance_of v h ∷ ps) ok s =
    rw
      (
        scan-next 255 (v / 256 ∷ v % 256 ∷ line ps) ok s,
        at_byte-frame v (line ps) ok s h,
        scan-skip (v / 256) (v % 256 ∷ line ps) 1 true (reading v s),
        scan-skip (v % 256) (line ps) 0 true (reading v s),
      )
      (scan-line ps true (reading v s))
