-- ===== src/Streams/Closed.antt =====
-- What is left of the streams after they are closed.
use tunneledge.Common.{
  Text, ◌≤◌, ◌≡◌, ◌⊎◌, refl, ◌∙◌, not, [], ◌∷◌, Option, none, some, text_eq, text_eq_iff,
  text_eq_refl, arith, Option-cases, inl, inr,
}
use tunneledge.Common.Maps.{get, remove, kept, get-put, get-remove}
use tunneledge.Errs.{GoError}
use tunneledge.Streams.{
  State, state_open, state_closed, Stream, Manager, count_by_tunnel, close_stream, close,
  close_by_tunnel,
}

State-cases : (s : State) → (s ≡ state_open) ⊎ (s ≡ state_closed)
State-cases state_open = inl refl
State-cases state_closed = inr refl

module _ {Raw : Type 0} (close_raw : Raw → Option GoError) where
  gone-close :
      (m : Manager Raw) (id : Text) → get m id ≡ none → get (close close_raw m id).0 id ≡ none
  unfolding close
  gone-close m id h = rw (h) h

  closed-close :
      (m : Manager Raw) (id : Text) (s : Stream Raw)
      → get m id ≡ some s
      → s.state ≡ state_closed
      → get (close close_raw m id).0 id ≡ none
  unfolding close close_stream
  closed-close m id s h c = rw (h, c) (get-remove m id id ∙ rw (text_eq_refl) refl)

  -- After two calls of Close the stream is gone, even where its connection fails to close.
  pub get-close_twice :
      (m : Manager Raw) (id : Text) → get (close close_raw (close close_raw m id).0 id).0 id ≡ none
  unfolding close close_stream
  get-close_twice m id = elim (Option-cases (get m id)) [
    | inl h ↦ gone-close _ id (gone-close m id h)
    | inr (s, h) ↦ elim (State-cases s.state) [
      | inr c ↦ gone-close _ id (closed-close m id s h c)
      | inl o ↦ elim (Option-cases (close_raw s.stream)) [
        | inl r ↦ gone-close _ id (rw (h, o, r) (get-remove m id id ∙ rw (text_eq_refl) refl))
        | inr (e, r) ↦
            closed-close _ id (record s { state = state_closed })
              (rw (h, o, r) (get-put m id id _ ∙ rw (text_eq_refl) refl)) refl
      ]
    ]
  ]

  -- CloseByTunnel removes the tunnel's streams and no others.
  pub get-close_by_tunnel :
      (m : Manager Raw) (t id : Text)
      → get (close_by_tunnel close_raw m t).0 id
        ≡ kept (λ id s. not (text_eq s.tunnel_id t)) id (get m id)
  unfolding close_by_tunnel get
  get-close_by_tunnel [] t id = refl
  get-close_by_tunnel ((j, s) ∷ m) t id = ground (
    arith,
    get-close_by_tunnel m t id,
    get-remove (close_by_tunnel close_raw m t).0 j id,
    text_eq_iff j id,
  )

  count_by_tunnel-remove :
      (m : Manager Raw) (id t : Text) → count_by_tunnel (remove m id) t ≤ count_by_tunnel m t
  unfolding count_by_tunnel remove
  count_by_tunnel-remove [] id t = omega arith
  count_by_tunnel-remove ((j, s) ∷ m) id t = ground (arith, count_by_tunnel-remove m id t)

  -- CountByTunnel is 0 after CloseByTunnel.
  pub count_by_tunnel-close_by_tunnel :
      (m : Manager Raw) (t : Text) → count_by_tunnel (close_by_tunnel close_raw m t).0 t ≡ 0
  unfolding close_by_tunnel count_by_tunnel
  count_by_tunnel-close_by_tunnel [] t = refl
  count_by_tunnel-close_by_tunnel ((j, s) ∷ m) t = ground (
    arith,
    count_by_tunnel-close_by_tunnel m t,
    count_by_tunnel-remove (close_by_tunnel close_raw m t).0 j t,
  )
