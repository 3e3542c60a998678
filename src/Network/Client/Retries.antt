-- ===== src/Network/Client/Retries.antt =====
-- The retries of a publication.
use samaritan_db.Network.Client.{published, publish_loop, Client}
use samaritan_db.Prelude.{
  ℕ, suc, refl, inl, inr, Bool, not, some, Bool-cases, ◌+◌, ◌≡◌, ◌&&◌, ◌∷◌, if◌then◌else◌,
}
use samaritan_db.Text.{Text}

-- Two attempts fail.
abbrev pub gives_up : Client → Bool
gives_up c = not (c.publishes c.attempts) && not (c.publishes (c.attempts + 1))

-- The loop ends with any fuel from two on. It makes a second attempt exactly if the first fails, and
-- no third, and publishes the message once, unless both fail; nothing else changes.
pub publish_loop_ends :
    (f : ℕ) (did message : Text) (c : Client)
    → (c' : Client) × (publish_loop (suc (suc f)) 0 did message c ≡ some c')
      × (c' ≡ record c {
        outgoing = if gives_up c then c.outgoing else published did message ∷ c.outgoing;
        attempts = if c.publishes c.attempts then c.attempts + 1 else c.attempts + 1 + 1;
      })
unfolding publish_loop
publish_loop_ends f did message c = elim (Bool-cases (c.publishes c.attempts)) [
  | inl first ↦ rw first (_, refl, refl)
  | inr again ↦ elim (Bool-cases (c.publishes (c.attempts + 1))) [
    | inl second ↦ rw (again, second) (_, refl, refl)
    | inr lost ↦ rw (again, lost) (_, refl, refl)
  ]
]
