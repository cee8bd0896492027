-- ===== src/Integrations/Tracker/Body.antt =====
-- integrations/nethttp/response_writer.go: the bytes that a tracker keeps of a response, beside a plain log
-- that keeps all of them.
use duckbug_go.Base.{
  ℕ, zero, suc, ◌+◌, ◌-◌, ◌≤◌, ◌<◌, ◌==◌, ltb, Bool, true, false, List, [], ◌∷◌, ◌++◌, length, take,
  append-nil, length-append, ◌≡◌, refl, ap, sym, ◌∙◌, inl, inr, arith, Bool-cases,
}
use duckbug_go.Base.Int.{ℤ, pos_part}
use duckbug_go.Integrations.Tracker.{Tracker, capture_body}

module _ {ℓ} {A : Type ℓ} where
  pub take-long : (n : ℕ) (s b : List A) → n ≤ length s → take n (s ++ b) ≡ take n s
  take-long zero s b h = refl
  take-long (suc n) [] b h = ground arith
  take-long (suc n) (x ∷ s) b h = ap (λ r. x ∷ r) (take-long n s b (omega arith))

  take-short : (n : ℕ) (s b : List A) → length s ≤ n → take n (s ++ b) ≡ s ++ take (n - length s) b
  take-short n [] b h = ap (λ m. take m b) (omega arith)
  take-short zero (x ∷ s) b h = ground arith
  take-short (suc n) (x ∷ s) b h =
      ap (λ r. x ∷ r) (take-short n s b (omega arith)) ∙ ap (λ m. x ∷ (s ++ take m b)) (omega arith)

  pub take-take : (m n : ℕ) (s : List A) → m ≤ n → take m (take n s) ≡ take m s
  take-take zero n s h = refl
  take-take (suc m) zero s h = ground arith
  take-take (suc m) (suc n) [] h = refl
  take-take (suc m) (suc n) (x ∷ s) h = ap (λ r. x ∷ r) (take-take m n s (omega arith))

  take-all : (n : ℕ) (s : List A) → length s ≤ n → take n s ≡ s
  take-all zero [] h = refl
  take-all (suc n) [] h = refl
  take-all zero (x ∷ s) h = ground arith
  take-all (suc n) (x ∷ s) h = ap (λ r. x ∷ r) (take-all n s (omega arith))

-- A response as it is, with all of its bytes.
pub record Log : Type 0 where
  pub status_code : ℕ
  pub wrote_header : Bool
  pub hijacked : Bool
  pub accepted_bytes : ℕ
  pub limit : ℤ
  pub bytes : List ℕ

abbrev pub raw : ℕ → Bool → Bool → ℕ → ℤ → List ℕ → Bool → Tracker
raw status wrote hijacked accepted limit body truncated = record {
  status_code = status;
  wrote_header = wrote;
  hijacked = hijacked;
  accepted_bytes = accepted;
  capture_response = true;
  max_response_bytes = limit;
  response_body = body;
  truncated = truncated;
}

-- The tracker of a response: the bytes up to the limit, and whether there are more.
abbrev pub view : Log → Tracker
view l =
    raw l.status_code l.wrote_header l.hijacked l.accepted_bytes l.limit
      (take (pos_part l.limit) l.bytes) (ltb (pos_part l.limit) (length l.bytes))

abbrev pub extend : List ℕ → Log → Log
extend b l = record l { bytes = l.bytes ++ b }

pub raw-≡ :
    (status : ℕ) (wrote hijacked : Bool) (accepted : ℕ) (limit : ℤ) (b c : List ℕ) (x y : Bool)
    → b ≡ c
    → x ≡ y
    → raw status wrote hijacked accepted limit b x ≡ raw status wrote hijacked accepted limit c y
raw-≡ status wrote hijacked accepted limit b c x y e f = rw (e, f)

pub taken :
    (l : Log)
    → ltb (pos_part l.limit) (length l.bytes) ≡ false
    → take (pos_part l.limit) l.bytes ≡ l.bytes
taken l e = take-all (pos_part l.limit) l.bytes (ground arith)

-- The bytes that stand while there is room.
pub with_room :
    (l : Log) (b : List ℕ)
    → ltb (pos_part l.limit) (length l.bytes) ≡ false
    → take (pos_part l.limit) (l.bytes ++ b)
      ≡ take (pos_part l.limit) l.bytes
        ++ take (pos_part l.limit - length (take (pos_part l.limit) l.bytes)) b
with_room l b e =
    take-short (pos_part l.limit) l.bytes b (ground arith)
    ∙ ap (λ s. s ++ take (pos_part l.limit - length s) b) (sym (taken l e))

longer :
    (l : Log) (x : ℕ) (xs : List ℕ)
    → pos_part l.limit < length l.bytes + suc (length xs)
    → true ≡ ltb (pos_part l.limit) (length (l.bytes ++ x ∷ xs))
longer l x xs h = ground (arith, length-append l.bytes (x ∷ xs))

pub capture_body-extend : (b : List ℕ) (l : Log) → capture_body b (view l) ≡ view (extend b l)
unfolding capture_body
capture_body-extend [] l = rw (append-nil l.bytes)
capture_body-extend (x ∷ xs) l = elim (Bool-cases (ltb (pos_part l.limit) (length l.bytes))) [
  | inl e ↦ rw e (
      raw-≡ _ _ _ _ _ _ _ _ _ (sym (take-long (pos_part l.limit) l.bytes (x ∷ xs) (ground arith)))
        (longer l x xs (ground arith)))
  | inr e ↦
      let size = ap length (taken l e) in
      elim (Bool-cases (pos_part l.limit - length (take (pos_part l.limit) l.bytes) == 0)) [
        | inl z ↦
            rw (e, z)
              (raw-≡ _ _ _ _ _ _ _ _ _
                (sym (take-long (pos_part l.limit) l.bytes (x ∷ xs) (ground arith)))
                (longer l x xs (ground arith)))
        | inr z ↦
            elim (Bool-cases (
              ltb (pos_part l.limit - length (take (pos_part l.limit) l.bytes))
                (suc (length xs)))) [
                  | inl m ↦
                      rw (e, z, m)
                        (raw-≡ _ _ _ _ _ _ _ _ _ (sym (with_room l (x ∷ xs) e))
                          (longer l x xs (ground arith)))
                  | inr m ↦
                      rw (e, z, m)
                        (raw-≡ _ _ _ _ _ _ _ _ _
                          (sym (
                            with_room l (x ∷ xs) e
                            ∙ ap (λ b. take (pos_part l.limit) l.bytes ++ b)
                                (take-all _ (x ∷ xs) (ground arith))))
                          (ground (arith, length-append l.bytes (x ∷ xs))))
                ]
      ]
]
