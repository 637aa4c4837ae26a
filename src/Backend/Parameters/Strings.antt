-- ===== src/Backend/Parameters/Strings.antt =====
-- parameters_setString and parameters_getString.
use hq_components.Prelude.{
  ℕ, ◌<◌, ◌≡◌, refl, inl, inr, ap, ◌∙◌, ◌&&◌, List, [], ◌∷◌, ◌++◌, none, some, length, replicate,
  ltb, ◌==◌, if◌then◌else◌, Bool-cases, append_assoc, length-append, length-set, length-replicate,
  get_or-set_self, write_at_front, arith,
}
use hq_components.Backend.Parameters.{Store, c_string, text_buffer, set_string, get_string}

-- A closed text is read back as itself, whatever stands behind its 0.
pub c_string-closed : (str rest : List ℕ) → c_string (c_string str ++ (0 ∷ rest)) ≡ c_string str
unfolding c_string
c_string-closed [] rest = refl
c_string-closed (c ∷ str) rest = elim (Bool-cases (c == 0)) [
  | inl e ↦ rw e
  | inr e ↦ rw e (rw e (ap (◌∷◌ c) (c_string-closed str rest)))
]

c_string-buffer :
    (str : List ℕ)
    → length (c_string str) < 48
    → c_string (text_buffer (c_string str)) ≡ c_string str
unfolding text_buffer
c_string-buffer str h =
    ap c_string (
      write_at_front (replicate 49 0) (c_string str ++ (0 ∷ []))
        (omega (arith, length-append (c_string str) (0 ∷ []), length-replicate {A = ℕ} 49 0))
      ∙ append_assoc (c_string str) (0 ∷ []) _)
    ∙ c_string-closed str _

-- parameters_setString accepts exactly the one known string parameter with a text of less than 48
-- bytes. The text then comes back from parameters_getString into any buffer that is longer than
-- the text, and into no other; a refused text changes nothing, and the values are never touched.
pub set_string_lem :
    (val n : ℕ) (str : List ℕ) (s : Store)
    → length s.strings ≡ 1
    → let (done, t) = set_string val str s in
      (done ≡ (ltb val 1 && ltb (length (c_string str)) 48))
      × (get_string val n t ≡ (
          if done
          then (if ltb (length (c_string str)) n then some (c_string str) else none)
          else get_string val n s))
      × (t.values ≡ s.values)
      × (length t.strings ≡ 1)
unfolding set_string get_string
set_string_lem val n str s sized = (
  ground arith,
  ground
      (arith, c_string-buffer str, get_or-set_self s.strings val (text_buffer (c_string str)) []),
  ground arith,
  ground (arith, length-set s.strings val (text_buffer (c_string str))),
)
