-- ===== src/Arrays/Bytes.antt =====
-- array_type.cpp: what is written of a vector of bytes.
use fans.Base.{
  ℕ, zero, suc, ◌≤◌, ◌<◌, ◌≡◌, refl, ap, ◌∙◌, Bool, true, false, ◌∷◌, [], List, if◌then◌else◌,
  arith, length, All,
}
use fans.Exec.{Exec, Outcome, done, exits, hangs}
use fans.Exec.Keeps.{Keeps, Keeps-pure, Keeps-if, Keeps-bind, Returned}
use fans.Exec.Yields.{Yields, Yields-bind}
use fans.Exec.Succeeds.{Sure, Succeeds}
use fans.Random.{Rng, random_uint64, n_out_of}
use fans.Calls.{Reply, write_bytes, write_uint32}
use fans.Model.{Tables, Variable}
use fans.State.{State, draw}
use fans.Checker.{Floats}
use fans.IntType.{generate_size}
use fans.IntType.Bounds.{draw-Sure, n_out_of-Sure, generate_size-Sure}
use fans.IntType.Names.{named, mentions}
use fans.Arrays.{
  Solver, is_vector, has_known_size, is_byte_array, cut_count, random_size, random_bytes,
  vector_size, array_size, write_random_bytes, generate_array,
}

-- Drawing makes no call on the data parcel.
abbrev Unwritten : State → State → Type 0
Unwritten s t = t.written ≡ s.written

draw-Keeps :
    {A : Type 0} (s : State) (Q : A → Type 0) (d : Exec Rng A)
    → Sure Q d
    → Keeps (Unwritten s) Q (draw d)
draw-Keeps {A} s Q d h = record { run = λ t i. returned t (d t.rng) i (h.run t.rng) }
  where
    returned :
        (t : State) (o : Outcome (A × Rng))
        → Unwritten s t
        → Succeeds Q o
        → Returned (Unwritten s) Q (elim o [
          | done (a, r) ↦ done (a, record t { rng = r })
          | exits e ↦ exits e
          | hangs ↦ hangs
        ])
    returned t (done (a, r)) i k = (k, i)
    returned t (exits e) i k = k
    returned t hangs i k = k

abbrev Is32 : ℕ → Type 0
Is32 n = n < 4294967296

random_size-Keeps : (s : State) → Keeps (Unwritten s) Is32 random_size
random_size-Keeps s =
    Keeps-bind (Unwritten s) _ Is32 (draw generate_size) _ (draw-Keeps s _ _ generate_size-Sure)
      (λ n _. Keeps-pure (Unwritten s) Is32 _ (omega arith))

abbrev AreBytes : ℕ → List ℕ → Type 0
AreBytes n bs = (length bs ≡ n) × All (λ b. b ≤ 255) bs

random_bytes-Keeps : (s : State) (n : ℕ) → Keeps (Unwritten s) (AreBytes n) (random_bytes n)
unfolding random_bytes
random_bytes-Keeps s zero = Keeps-pure (Unwritten s) (AreBytes 0) [] (refl, tt)
random_bytes-Keeps s (suc n) =
    Keeps-bind (Unwritten s) (λ b. b ≤ 255) (AreBytes (suc n)) (draw (random_uint64 0 255)) _
      (draw-Keeps s _ _ (draw-Sure 0 255 _ (omega arith) (λ v l u. u)))
      (λ b h.
        Keeps-bind (Unwritten s) (AreBytes n) (AreBytes (suc n)) (random_bytes n) _
          (random_bytes-Keeps s n)
          (λ bs k. Keeps-pure (Unwritten s) (AreBytes (suc n)) (b ∷ bs) (ap suc k.0, (h, k.1))))

module _ {A : Type 0} where
  Yields-true :
      (Q : A → State → Type 0) (b : Bool) (m n : Exec State A) (s : State)
      → b ≡ true
      → Yields Q (m s)
      → Yields Q ((if b then m else n) s)
  Yields-true Q b m n s e h = rw (e, Yields) h

  Yields-false :
      (Q : A → State → Type 0) (b : Bool) (m n : Exec State A) (s : State)
      → b ≡ false
      → Yields Q (n s)
      → Yields Q ((if b then m else n) s)
  Yields-false Q b m n s e h = rw (e, Yields) h

  Keeps→Yields :
      (I : State → Type 0) (Q : A → Type 0) (m : Exec State A) (s : State)
      → I s
      → Keeps I Q m
      → Yields (λ a t. Q a × I t) (m s)
  Keeps→Yields I Q m s i k = of_outcome (m s) (k.run s i)
    where
      of_outcome : (o : Outcome (A × State)) → Returned I Q o → Yields (λ a t. Q a × I t) o
      of_outcome (done (a, t)) h = h
      of_outcome (exits e) h = h
      of_outcome hangs h = h

-- The calls on the data parcel: the number of bytes that was drawn, and then the bytes, cut to
-- MAX_ARRAY_SIZE.
pub record ByteVector (s t : State) : Type 0 where
  pub size : ℕ
  pub bytes : List ℕ
  pub is_32 : Is32 size
  pub are_bytes : AreBytes (cut_count size) bytes
  pub calls : t.written ≡ write_bytes bytes ∷ write_uint32 size ∷ s.written

module _ (floats : Floats) (m : Tables) (item : ℕ → Exec State (Unit {0})) (solver : Solver)
    (replies : Reply) (variable : Variable) where
  vector_size-Keeps :
      (s : State) → Keeps (Unwritten s) Is32 (vector_size floats m item solver replies variable)
  unfolding vector_size
  vector_size-Keeps s =
      let I = Unwritten s in
      Keeps-bind I _ Is32 (draw (n_out_of 7 10)) _
        (draw-Keeps s _ _ (n_out_of-Sure 7 10 (omega arith)))
        (λ semantic _.
          Keeps-if I Is32 semantic _ _
            (λ _.
              Keeps-if I Is32 (mentions variable.type "in_mac") _ _
                (λ _. Keeps-pure I Is32 6 (omega arith))
                (λ _.
                  Keeps-if I Is32 (mentions variable.type "in_params") _ _
                    (λ _. Keeps-pure I Is32 4 (omega arith))
                    (λ _.
                      Keeps-if I Is32 (named variable.name "in_tlsFingerprints") _ _
                        (λ _. Keeps-pure I Is32 0 (omega arith)) (λ _. random_size-Keeps s))))
            (λ _. random_size-Keeps s))

  array_size-writes :
      (s : State)
      → is_vector variable.type ≡ true
      → has_known_size variable.name ≡ false
      → Yields
          (λ n t. Is32 n × (t.written ≡ write_uint32 n ∷ s.written))
          (array_size floats m item solver replies variable s)
  unfolding array_size
  array_size-writes s vector unknown =
      let P = λ (n : ℕ) (t : State). Is32 n × (t.written ≡ write_uint32 n ∷ s.written) in
      Yields-true P (is_vector variable.type) _ _ s vector (
        Yields-false P (has_known_size variable.name) _ _ s unknown (
          Yields-bind (λ n t. Is32 n × Unwritten s t) P
            (vector_size floats m item solver replies variable) _ s
            (Keeps→Yields (Unwritten s) Is32 _ s refl (vector_size-Keeps s))
            (λ n t (b, w). (b, ap (λ c. write_uint32 n ∷ c) w))))

  -- The writing of a vector of bytes, which is not called "uuid" and whose size is not written
  -- elsewhere, returns for every sequence of draws. The data parcel gets a 32-bit number and then as
  -- many bytes, or MAX_ARRAY_SIZE bytes if the number is larger.
  pub generate_array-ByteVector :
      (s : State)
      → named variable.name "uuid" ≡ false
      → is_vector variable.type ≡ true
      → has_known_size variable.name ≡ false
      → is_byte_array variable.type ≡ true
      → Yields (λ _ t. ByteVector s t) (generate_array floats m item solver replies variable s)
  unfolding generate_array write_random_bytes
  generate_array-ByteVector s no_uuid vector unknown of_bytes =
      let Q = λ (a : Unit {0}) (t : State). ByteVector s t in
      Yields-false Q (named variable.name "uuid") _ _ s no_uuid (
        Yields-bind (λ n t. Is32 n × (t.written ≡ write_uint32 n ∷ s.written)) Q
          (array_size floats m item solver replies variable) _ s
          (array_size-writes s vector unknown)
          (λ n t (b, w). Yields-true Q (is_byte_array variable.type) _ _ t of_bytes (
            Yields-bind (λ bs u. AreBytes (cut_count n) bs × Unwritten t u) Q
              (random_bytes (cut_count n)) _ t
              (Keeps→Yields (Unwritten t) (AreBytes (cut_count n)) _ t refl
                (random_bytes-Keeps t (cut_count n)))
              (λ bs u (k, same). record {
                size = n;
                bytes = bs;
                is_32 = b;
                are_bytes = k;
                calls = ap (λ c. write_bytes bs ∷ c) (same ∙ w);
              }))))
