-- ===== src/Daemon/Detox/Fresh.antt =====
-- focusd/src/rpc.rs, next_detox_session_id: the loop ends, with an id that no session has.
use bloc_kuntu.Common.{
  ℕ, zero, suc, ◌+◌, ◌-◌, ◌*◌, ◌/◌, ◌≤◌, ◌<◌, ◌≡◌, refl, sym, ap, ◌∙◌, ◌≢◌, ◌⊎◌, inl, inr, true,
  false, not, Option, none, some, List, [], ◌∷◌, ◌++◌, map, reverse, append-nil, arith, ltb,
  Bool-cases, Option-cases, is_some, length, filter, find,
}
use bloc_kuntu.Common.Results.{ok, err}
use mathlib.Core.List.{reverse-reverse}
use bloc_kuntu.Text.{Text, text_eq, lit}
use bloc_kuntu.Text.Laws.{text_eq_iff}
use bloc_kuntu.Platform.{Instant}
use bloc_kuntu.Types.{Error, DetoxSession}
use bloc_kuntu.Store.{Database, DetoxRow, attempt, attempt-done, read_detox_session, id_member}
use bloc_kuntu.Store.Services.{detox_session}
use bloc_kuntu.Store.Detox.{session_of_row}
use bloc_kuntu.Daemon.{DaemonError, Outcome}
use bloc_kuntu.Daemon.Detox.{
  digits, decimal, base_id, with_suffix, first_free, next_detox_session_id,
}

-- The number that digits stand for, the last digit first.
value : Text → ℕ
value [] = 0
value (c ∷ s) = (c - 48) + 10 * value s

value-digits : (fuel n : ℕ) → n ≤ fuel → value (digits fuel n) ≡ n
unfolding value digits
value-digits zero n h = omega arith
value-digits (suc fuel) n h =
    let rest = value-digits fuel (n / 10) (omega arith) in
    elim (Bool-cases (ltb n 10)) [ inl e ↦ rw e (omega arith) | inr e ↦ rw e (omega (arith, rest)) ]

reverse-injective : {A : Type 0} (xs ys : List A) → reverse xs ≡ reverse ys → xs ≡ ys
reverse-injective xs ys h = sym (reverse-reverse xs) ∙ ap reverse h ∙ reverse-reverse ys

decimal-injective : (m n : ℕ) → decimal m ≡ decimal n → m ≡ n
unfolding decimal
decimal-injective m n h =
    let same = reverse-injective (digits m m) (digits n n) h in
    sym (value-digits m m (omega arith)) ∙ ap value same ∙ value-digits n n (omega arith)

append-cancel : {A : Type 0} (xs ys zs : List A) → xs ++ ys ≡ xs ++ zs → ys ≡ zs
append-cancel [] ys zs h = h
append-cancel (x ∷ xs) ys zs h = append-cancel xs ys zs (ground arith)

with_suffix-injective : (base : Text) (m n : ℕ) → with_suffix base m ≡ with_suffix base n → m ≡ n
with_suffix-injective base m n h =
    decimal-injective m n (append-cancel (lit "-") _ _ (append-cancel base _ _ h))

append-ne-base : (base : Text) (n : ℕ) → base ≢ with_suffix base n
append-ne-base base n h = let empty = append-cancel base [] _ (append-nil base ∙ h) in cc

-- A list without a text that it has is shorter.
without : Text → List Text → List Text
without id ids = filter (λ candidate. not (text_eq candidate id)) ids

without-le : (id : Text) (ids : List Text) → length (without id ids) ≤ length ids
unfolding without
without-le id [] = omega arith
without-le id (x ∷ ids) =
    let rest = without-le id ids in
    elim (Bool-cases (text_eq x id)) [
      | inl e ↦ rw e (omega (arith, rest))
      | inr e ↦ rw e (omega (arith, rest))
    ]

without-lt :
    (id : Text) (ids : List Text) → id_member id ids ≡ true → length (without id ids) < length ids
unfolding without
without-lt id [] h = cc
without-lt id (x ∷ ids) h = elim (Bool-cases (text_eq x id)) [
  | inl e ↦ let rest = without-le id ids in rw e (omega (arith, rest))
  | inr e ↦ let rest = without-lt id ids (ground arith) in rw e (omega (arith, rest))
]

without-member :
    (id other : Text) (ids : List Text)
    → id ≢ other
    → id_member other ids ≡ true
    → id_member other (without id ids) ≡ true
unfolding without
without-member id other [] apart h = cc
without-member id other (x ∷ ids) apart h = elim (Bool-cases (text_eq x id)) [
  | inl e ↦
      let not_other : text_eq x other ≡ false = elim (Bool-cases (text_eq x other)) [
        | inr f ↦ f
        | inl f ↦ absurd (apart (sym ((text_eq_iff x id).0 e) ∙ (text_eq_iff x other).0 f))
      ] in
      let rest = without-member id other ids apart (ground arith) in rw e rest
  | inr e ↦ elim (Bool-cases (text_eq x other)) [
    | inl f ↦ rw e (rw f refl)
    | inr f ↦ let rest = without-member id other ids apart (ground arith) in rw e (rw f rest)
  ]
]

length-ids : (rows : List DetoxRow) → length (map (λ (r : DetoxRow). r.id) rows) ≡ length rows
length-ids [] = refl
length-ids (r ∷ rows) = ap suc (length-ids rows)

module _ (db : Database) where
  abbrev pub ids : List Text
  ids = map (λ (r : DetoxRow). r.id) db.detox_sessions

  lookup_member :
      (id : Text) (rows : List DetoxRow)
      → is_some (find (λ (r : DetoxRow). text_eq r.id id) rows)
        ≡ id_member id (map (λ (r : DetoxRow). r.id) rows)
  lookup_member id [] = refl
  lookup_member id (r ∷ rows) = let rest = lookup_member id rows in ground arith

  row_session : Option DetoxRow → Option DetoxSession
  row_session none = none
  row_session (some row) = some (session_of_row row)

  is_some-row_session : (o : Option DetoxRow) → is_some (row_session o) ≡ is_some o
  unfolding row_session
  is_some-row_session none = refl
  is_some-row_session (some row) = refl

  detox_session-found :
      (id : Text)
      → db.failure (read_detox_session id) ≡ none
      → (found : Option DetoxSession) × (detox_session id db ≡ ok found)
        × (is_some found ≡ id_member id ids)
  unfolding detox_session row_session
  detox_session-found id fine =
      let row = find (λ (r : DetoxRow). text_eq r.id id) db.detox_sessions in
      (
        row_session row,
        attempt-done db (read_detox_session id) _ fine,
        is_some-row_session row ∙ lookup_member id db.detox_sessions,
      )

  detox_session-failed :
      (id message : Text)
      → db.failure (read_detox_session id) ≡ some message
      → detox_session id db ≡ err (Error.database message)
  unfolding detox_session
  detox_session-failed id message fails = rw (fails, attempt) refl

  -- The loop has found an id that no session has, or SQLite failed to look one up.
  abbrev pub Ends : Outcome (Option Text) → Type 0
  Ends result =
      ((id : Text) × (result ≡ ok (some id)) × (id_member id ids ≡ false))
      ⊎ ((id message : Text) × (db.failure (read_detox_session id) ≡ some message)
          × (result ≡ err (DaemonError.core (Error.database message))))

  first_free-Ends :
      (fuel : ℕ) (base id : Text) (suffix : ℕ) (left : List Text)
      → length left < fuel
      → (id_member id ids ≡ true → id_member id left ≡ true)
      → ((k : ℕ)
          → suffix ≤ k
          → id_member (with_suffix base k) ids ≡ true
          → id_member (with_suffix base k) left ≡ true)
      → ((k : ℕ) → suffix ≤ k → id ≢ with_suffix base k)
      → Ends (first_free fuel base id suffix db)
  unfolding first_free
  first_free-Ends zero base id suffix left short now later apart = absurd (omega arith)
  first_free-Ends (suc fuel) base id suffix left short now later apart =
      elim (Option-cases (db.failure (read_detox_session id))) [
        | inr (message, fails) ↦
            inr (id, message, fails, rw (detox_session-failed id message fails) refl)
        | inl fine ↦
            let (found, read, known) = detox_session-found id fine in
            elim (Bool-cases (id_member id ids)) [
              | inr free ↦
                  let none_found : is_some found ≡ false = known ∙ free in
                  inl (id, rw read (rw none_found refl), free)
              | inl taken ↦
                  let some_found : is_some found ≡ true = known ∙ taken in
                  let shorter = without-lt id left (now taken) in
                  let rest =
                    first_free-Ends fuel base (with_suffix base suffix) (suffix + 1)
                      (without id left) (omega arith)
                      (λ h.
                        without-member id (with_suffix base suffix) left
                          (apart suffix (omega arith)) (later suffix (omega arith) h))
                      (λ k le h.
                        without-member id (with_suffix base k) left (apart k (omega arith))
                          (later k (omega arith) h))
                      (λ k le same. omega (arith, with_suffix-injective base suffix k same)) in
                  rw read (rw some_found rest)
            ]
      ]

  -- The search for an id ends: with one that no stored session has, or with the error of a lookup
  -- that SQLite failed. As many rounds as there are sessions, and one more, are enough.
  pub next_detox_session_id-Ends : (now : Instant) → Ends (next_detox_session_id now db)
  unfolding next_detox_session_id
  next_detox_session_id-Ends now =
      first_free-Ends (suc (length db.detox_sessions)) (base_id now) (base_id now) 2 ids
        (omega (arith, length-ids db.detox_sessions)) (λ h. h) (λ k le h. h)
        (λ k le. append-ne-base (base_id now) k)
