-- ===== src/Tcp/Laws.antt =====
-- What a call of `Send` leaves, alone and among others.
use opslog.Prelude.{
  ◌≡◌, refl, sym, ap, ◌∙◌, ◌⊎◌, inl, inr, Bool, true, false, Option, none, some, arith, Error,
}
use mathlib.Core.Path.{subst}
use opslog.Framer.{Bytes, FrameError, write_length_prefixed}
use opslog.Tcp.{
  Net, State, Ending, sent, panicked, dial_failed, write_error, add_conn, ensure_from, ensure,
  end_write, write_to, locked_write, then_write, send,
}

module _ {C N : Type 0} (io : Net C N) where
  open io use {dial, conn_write, close}

  abbrev pub is_connected : State C N → Bool
  is_connected s = elim s.conn [ none ↦ false | some c ↦ true ]

  -- What `Healthy` reports is whether there is a connection.
  abbrev pub IsHonest : State C N → Type 0
  IsHonest s = s.ok_flag ≡ is_connected s

  -- The ending says what is left: a connection after success, and none after a failed dial or write.
  abbrev pub Explains : Ending → State C N → Type 0
  Explains sent s = is_connected s ≡ true
  Explains (write_error e) s = is_connected s ≡ false
  Explains (dial_failed e) s = is_connected s ≡ false
  Explains panicked s = ⊥

  abbrev Good : Ending × State C N → Type 0
  Good r = Explains r.0 r.1 × IsHonest r.1

  end_write-Good :
      (c : C) (s : State C N) (r : N × Option FrameError)
      → s.conn ≡ some c
      → Good (end_write io c s r)
  unfolding end_write
  end_write-Good c s (n, none) e = rw e (refl, refl)
  end_write-Good c s (n, some x) e = (refl, refl)

  write_to-Good :
      (c : C) (p : Bytes) (s : State C N) → s.conn ≡ some c → Good (write_to io (some c) p s)
  unfolding write_to
  write_to-Good c p s e = end_write-Good c s _ e

  locked_write-some :
      (c : C) (p : Bytes) (s : State C N)
      → s.conn ≡ some c
      → locked_write io p s ≡ write_to io (some c) p s
  unfolding locked_write
  locked_write-some c p s e = λ i. write_to io (e i) p s

  locked_write-Good :
      (c : C) (p : Bytes) (s : State C N) → s.conn ≡ some c → Good (locked_write io p s)
  locked_write-Good c p s e =
      subst (λ r. Good r) (sym (locked_write-some c p s e)) (write_to-Good c p s e)

  dialled-Good :
      (p : Bytes) (s : State C N) (r : (Error ⊎ C) × N)
      → s.conn ≡ none
      → Good (then_write io p (add_conn io s r))
  unfolding add_conn then_write
  dialled-Good p s (inl x, n) e = rw e (refl, refl)
  dialled-Good p s (inr c, n) e =
      locked_write-Good c p (record s { conn = some c; ok_flag = true; net = n }) refl

  then_write-Good :
      (c : Option C) (p : Bytes) (s : State C N)
      → s.conn ≡ c
      → Good (then_write io p (ensure_from io c s))
  unfolding ensure_from then_write
  then_write-Good (some c) p s e = locked_write-Good c p s e
  then_write-Good none p s e = dialled-Good p s (dial s.net) e

  -- A call of `Send` that no other call interrupts never writes to a nil connection, from any state:
  -- it ends with a live connection after success, with none after an error, so that the next call
  -- dials again, and `Healthy` says which.
  pub send_explained :
      (p : Bytes) (s : State C N)
      → Explains (send io p s).0 (send io p s).1 × IsHonest (send io p s).1
  unfolding send ensure
  send_explained p s = then_write-Good s.conn p s refl

  locked_write_error :
      (c : C) (p : Bytes) (s : State C N) (x : FrameError)
      → s.conn ≡ some c
      → (write_length_prefixed (conn_write c) s.net p).1 ≡ some x
      → ((locked_write io p s).0 ≡ write_error x) × ((locked_write io p s).1.conn ≡ none)
  unfolding write_to
  locked_write_error c p s x e failed =
      subst (λ r. (r.0 ≡ write_error x) × (r.1.conn ≡ none)) (sym (locked_write-some c p s e))
        (go (write_length_prefixed (conn_write c) s.net p) failed)
    where
      go :
          (r : N × Option FrameError)
          → r.1 ≡ some x
          → ((end_write io c s r).0 ≡ write_error x) × ((end_write io c s r).1.conn ≡ none)
      go (n, none) h = cc
      go (n, some y) h = ground arith

  locked_write-none :
      (q : Bytes) (s : State C N) → s.conn ≡ none → (locked_write io q s).0 ≡ panicked
  unfolding locked_write write_to
  locked_write-none q s e = λ i. (write_to io (e i) q s).0

  ensure-some : (c : C) (s : State C N) → s.conn ≡ some c → ensure io s ≡ (none, s)
  unfolding ensure ensure_from
  ensure-some c s e = λ i. ensure_from io (e i) s

  -- Two calls of `Send` at once on a live connection, both past `ensure`: if the write of the first
  -- fails, the second writes to a nil connection.
  pub overlapping_sends_panic :
      (c : C) (p q : Bytes) (s : State C N) (x : FrameError)
      → s.conn ≡ some c
      → (write_length_prefixed (conn_write c) s.net p).1 ≡ some x
      → let ensured = (ensure io (ensure io s).1).1 in
        let failed = locked_write io p ensured in
        (failed.0 ≡ write_error x) × ((locked_write io q failed.1).0 ≡ panicked)
  overlapping_sends_panic c p q s x e failed =
      let once : ensure io s ≡ (none, s) = ensure-some c s e in
      let ensured : (ensure io (ensure io s).1).1 ≡ s =
        ap (λ (r : Option Error × State C N). (ensure io r.1).1) once
        ∙ ap (λ (r : Option Error × State C N). r.1) once in
      subst
        (λ t.
          ((locked_write io p t).0 ≡ write_error x)
          × ((locked_write io q (locked_write io p t).1).0 ≡ panicked))
        (sym ensured)
        (
          (locked_write_error c p s x e failed).0,
          locked_write-none q (locked_write io p s).1 (locked_write_error c p s x e failed).1,
        )
