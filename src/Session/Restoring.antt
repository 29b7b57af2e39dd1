-- ===== src/Session/Restoring.antt =====
-- What a run of mutations does to the session of Session/Slots.antt, whether it ends or raises.
use data_quality_toolkit.Prelude.{
  ℕ, ◌≤◌, ◌<◌, ◌≡◌, refl, ◌∙◌, String, Bool, true, false, Bool-cases, Option, none, some,
  Option-cases, List, [], ◌∷◌, ◌++◌, contains, contains-append, arith, eq_iff, inl, inr,
  if◌then◌else◌,
}
use data_quality_toolkit.Session.{Entry, Entries, Session, Outcome, done, raised}
use data_quality_toolkit.Session.Slots.{
  update, mutate, discard, and_then, discard_all, put_back, restore,
}

module _ (raises : ℕ → Bool) where
  abbrev pub Fault : ℕ → ℕ → Type 0
  Fault lo hi = (n : ℕ) × (raises n ≡ true) × (lo ≤ n) × (n < hi)

  -- A run on `keys` from `s`: at its end the entries are `after`. If it raises, a mutation of it
  -- did, and only the entries of `keys` may have changed.
  abbrev pub Ran : List String → Entries → Session → Outcome (Unit {0}) → Type 0
  Ran keys after s (done u s') =
      ((k : String) → s'.entries k ≡ after k) × (s.mutations ≤ s'.mutations)
  Ran keys after s (raised e s') =
      Fault s.mutations s'.mutations
      × ((k : String) → contains k keys ≡ false → s'.entries k ≡ s.entries k)

  pub mutate-Ran :
      (key : String) (e : Option Entry) (s : Session)
      → Ran (key ∷ []) (update key e s.entries) s (mutate raises key e s)
  unfolding mutate
  mutate-Ran key e s = elim (Bool-cases (raises s.mutations)) [
    | inl h ↦ rw h ((s.mutations, h, omega arith, omega arith), λ k c. refl)
    | inr h ↦ rw h (λ k. refl, omega arith)
  ]

  discard-Ran :
      (key : String) (s : Session)
      → Ran (key ∷ []) (update key none s.entries) s (discard raises key s)
  unfolding discard
  discard-Ran key s = elim (Option-cases (s.entries key)) [
    | inl h ↦ rw (h, discard) (λ k. absent k h, omega arith)
    | inr (e, h) ↦ rw (h, discard) (mutate-Ran key none s)
  ]
    where
      absent : (k : String) → s.entries key ≡ none → s.entries k ≡ update key none s.entries k
      absent k h = ground (arith, eq_iff key k)

  pub and_then-Ran :
      (ks ls : List String) (mid after : Entries) (s : Session) (o : Outcome (Unit {0}))
      (next : Session → Outcome (Unit {0}))
      → Ran ks mid s o
      → ((k : String) → contains k ks ≡ false → mid k ≡ s.entries k)
      → ((s' : Session) → ((k : String) → s'.entries k ≡ mid k) → Ran ls after s' (next s'))
      → Ran (ks ++ ls) after s (and_then raises o next)
  and_then-Ran ks ls mid after s (raised e s') next ran off rest =
      (ran.0, λ k c. ran.1 k (outside k c))
    where
      outside : (k : String) → contains k (ks ++ ls) ≡ false → contains k ks ≡ false
      outside k c = ground (arith, contains-append k ks ls)
  and_then-Ran ks ls mid after s (done u s') next ran off rest = onward (next s') (rest s' ran.0)
    where
      onward : (o : Outcome (Unit {0})) → Ran ls after s' o → Ran (ks ++ ls) after s o
      onward (done v s'') r = (r.0, omega (arith, r.1, ran.1))
      onward (raised e s'') ((n, h, lo, hi), keeps) = (
        (n, h, omega (arith, lo, ran.1), hi),
        λ k c. ground (arith, keeps k, off k, ran.0 k, contains-append k ks ls, c),
      )

  pub same_after :
      (ks : List String) (a b : Entries) (s : Session) (o : Outcome (Unit {0}))
      → ((k : String) → a k ≡ b k)
      → Ran ks a s o
      → Ran ks b s o
  same_after ks a b s (done u s') same ran = (λ k. ran.0 k ∙ same k, ran.1)
  same_after ks a b s (raised e s') same ran = ran

  pub discard_all-Ran :
      (keys : List String) (s : Session)
      → Ran keys (λ k. if contains k keys then none else s.entries k) s (discard_all raises keys s)
  unfolding discard_all
  discard_all-Ran [] s = (λ k. refl, omega arith)
  discard_all-Ran (key ∷ keys) s =
      and_then-Ran (key ∷ []) keys (update key none s.entries)
        (λ k. if contains k (key ∷ keys) then none else s.entries k) s (discard raises key s)
        (discard_all raises keys) (discard-Ran key s)
        (λ k c. ground (arith, eq_iff key k, eq_iff k key))
        (λ s' h.
          same_after keys _ _ s' (discard_all raises keys s')
            (λ k. ground (arith, h k, eq_iff key k, eq_iff k key)) (discard_all-Ran keys s'))

  put_back-Ran :
      (key : String) (e : Option Entry) (s : Session)
      → Ran (key ∷ []) (update key e s.entries) s (put_back raises key e s)
  put_back-Ran key none s = discard-Ran key s
  put_back-Ran key (some e) s = mutate-Ran key (some e) s

  pub restore-Ran :
      (keys : List String) (before : Entries) (s : Session)
      → Ran keys
          (λ k. if contains k keys then before k else s.entries k)
          s
          (restore raises keys before s)
  unfolding restore
  restore-Ran [] before s = (λ k. refl, omega arith)
  restore-Ran (key ∷ keys) before s =
      and_then-Ran (key ∷ []) keys (update key (before key) s.entries)
        (λ k. if contains k (key ∷ keys) then before k else s.entries k) s
        (put_back raises key (before key) s) (restore raises keys before)
        (put_back-Ran key (before key) s) (λ k c. ground (arith, eq_iff key k, eq_iff k key))
        (λ s' h.
          same_after keys _ _ s' (restore raises keys before s')
            (λ k. ground (arith, h k, eq_iff key k, eq_iff k key)) (restore-Ran keys before s'))
