-- ===== src/Pool/Exclusive/Filling.antt =====
-- Filling a pool (`fillPool` of src/serverResource.hpp) adds each connection at most once.
use asio_coro_frame.Base.{
  ℕ, zero, suc, ◌+◌, ◌≤◌, ◌<◌, ◌≡◌, refl, ◌⊎◌, inl, inr, [], ◌∷◌, ◌++◌, Option, Text, arith, ◌==◌,
  ==_iff, Bool-cases, ◌∙◌, ap,
}
use asio_coro_frame.Base.Numbers.{ℤ}
use asio_coro_frame.Pool.{
  SlotRange, ConQueue, ClusterNodes, Dialled, null, broken, live, Filled, fill_pool,
}
use asio_coro_frame.Pool.Counting.{count, count-append}

-- What the connect callback is relied on for: no two calls return the same connection.
abbrev pub IsFresh : (ℕ → Text → ℤ → Dialled) → Type 0
IsFresh connect =
    (n m : ℕ) (g h : Text) (p q : ℤ) (c : ℕ)
    → connect n g p ≡ live c
    → connect m h q ≡ live c
    → n ≡ m

module _ (connect : ℕ → Text → ℤ → Dialled)
    (search : ℕ → ClusterNodes → Option (SlotRange × ConQueue)) where
  -- The connection came from the n-th call of the callback, for an n in the range.
  pub record Between (lo hi c : ℕ) : Type 0 where
    pub call : ℕ
    pub name : Text
    pub port : ℤ
    pub above : lo ≤ call
    pub below : call < hi
    pub made : connect call name port ≡ live c

  -- Filling a queue adds each connection at most once, and only new ones.
  pub record Fills (c d : ℕ) (q : ConQueue) (f : Filled) : Type 0 where
    pub dialled : d ≤ f.dials
    pub added :
        (count c f.queue ≡ count c q) ⊎ ((count c f.queue ≡ count c q + 1) × Between d f.dials c)

  pub widen : {lo hi c : ℕ} (lo' : ℕ) → lo' ≤ lo → Between lo hi c → Between lo' hi c
  widen lo' h b = record {
    call = b.call;
    name = b.name;
    port = b.port;
    above = omega arith;
    below = b.below;
    made = b.made;
  }

  live-Fills :
      IsFresh connect
      → (c d : ℕ) (h : Text) (p : ℤ) (q : ConQueue) (con : ℕ) (f : Filled)
      → connect d h p ≡ live con
      → Fills c (d + 1) (q ++ con ∷ []) f
      → Fills c d q f
  live-Fills fresh c d h p q con f e r = record {
    dialled = omega (arith, r.dialled);
    added = elim r.added [
      | inl kept ↦ elim (Bool-cases (con == c)) [
        | inl hit ↦ inr (
          ground (arith, count-append c q (con ∷ [])),
          record {
            call = d;
            name = h;
            port = p;
            above = omega arith;
            below = omega (arith, r.dialled);
            made = e ∙ ap live ((==_iff con c).0 hit);
          },
        )
        | inr miss ↦ inl (ground (arith, count-append c q (con ∷ [])))
      ]
      | inr (more, b) ↦ elim (Bool-cases (con == c)) [
        | inl hit ↦ absurd (
            omega (
              arith,
              b.above,
              fresh d b.call h b.name p b.port c (e ∙ ap live ((==_iff con c).0 hit)) b.made,
            ))
        | inr miss ↦ inr (ground (arith, count-append c q (con ∷ [])), widen d (omega arith) b)
      ]
    ];
  }

  dial-Fills :
      IsFresh connect
      → (c n : ℕ) (h : Text) (p : ℤ) (q : ConQueue) (d : ℕ)
      → ((con : ℕ)
          → Fills c
              (d + 1)
              (q ++ con ∷ [])
              (fill_pool connect search n h p (q ++ con ∷ []) (d + 1)))
      → (r : Dialled) → connect d h p ≡ r
      → Fills c d q (fill_pool connect search (suc n) h p q d)
  unfolding fill_pool
  dial-Fills fresh c n h p q d more null e =
      rw (e, fill_pool) (record { dialled = omega arith; added = inl refl })
  dial-Fills fresh c n h p q d more (broken con) e =
      rw (e, fill_pool) (record { dialled = omega arith; added = inl refl })
  dial-Fills fresh c n h p q d more (live con) e =
      rw (e, fill_pool) (live-Fills fresh c d h p q con _ e (more con))

  pub fill_pool-Fills :
      IsFresh connect
      → (c n : ℕ) (h : Text) (p : ℤ) (q : ConQueue) (d : ℕ)
      → Fills c d q (fill_pool connect search n h p q d)
  unfolding fill_pool
  fill_pool-Fills fresh c zero h p q d = record { dialled = omega arith; added = inl refl }
  fill_pool-Fills fresh c (suc n) h p q d =
      dial-Fills fresh c n h p q d (λ con. fill_pool-Fills fresh c n h p (q ++ con ∷ []) (d + 1))
        (connect d h p) refl
