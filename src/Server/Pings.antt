-- ===== src/Server/Pings.antt =====
-- code/MyServer.cpp: the table of pings.
use ohie.Base.{
  ℕ, ◌≡◌, ◌∙◌, refl, Bool, true, false, ◌&&◌, some, Option-cases, Bool-cases, inl, inr,
  if◌then◌else◌,
}
use ohie.StdMap.{lookup, assign, lookup-assign}
use ohie.Text.{Text}
use ohie.Text.Order.{text_order, at_key_self}
use ohie.Server.{Server, int_lt, add_ping}

add_ping_seen :
    (s : Server) (name : Text) (old dnext : ℕ)
    → lookup name s.pings ≡ some old
    → add_ping s name dnext false ≡ (s, false)
unfolding add_ping
add_ping_seen s name old dnext e = rw (e, add_ping) refl

-- A ping that was noted is in the table afterwards.
abbrev Noted : Text → Server × Bool → Type 0
Noted name r = (n : ℕ) × (lookup name r.0.pings ≡ some n)

lookup_assigned :
    (s : Server) (name : Text) (dnext : ℕ) → lookup name (assign name dnext s.pings) ≡ some dnext
lookup_assigned s name dnext =
    lookup-assign name name dnext s.pings ∙ at_key_self name (some dnext) (lookup name s.pings)

Noted-if :
    (s : Server) (name : Text) (old dnext : ℕ) (b : Bool)
    → lookup name s.pings ≡ some old
    → Noted name (if b then (record s { pings = assign name dnext s.pings }, true) else (s, false))
Noted-if s name old dnext true e = (dnext, lookup_assigned s name dnext)
Noted-if s name old dnext false e = (old, e)

add_ping-Noted :
    (s : Server) (name : Text) (dnext : ℕ) (mode : Bool) → Noted name (add_ping s name dnext mode)
unfolding add_ping
add_ping-Noted s name dnext mode = elim (Option-cases (lookup name s.pings)) [
  | inl e ↦ rw (e, add_ping) (dnext, lookup_assigned s name dnext)
  | inr (old, e) ↦ rw (e, add_ping) (Noted-if s name old dnext (mode && int_lt dnext old) e)
]

-- A ping in the mode that measures latency, seen again after any ping of that name, is no news
-- and changes nothing.
pub add_ping_once :
    (s : Server) (name : Text) (dnext later : ℕ) (mode : Bool)
    → add_ping (add_ping s name dnext mode).0 name later false
      ≡ ((add_ping s name dnext mode).0, false)
add_ping_once s name dnext later mode =
    let (n, e) = add_ping-Noted s name dnext mode in
    add_ping_seen (add_ping s name dnext mode).0 name n later e

-- A ping in the mode that measures the diameter whose name is noted is news exactly when its
-- distance, an `int`, is smaller than the one noted; then the new distance is noted, and else the
-- old one stays.
pub add_ping_overwrite :
    (s : Server) (name : Text) (old dnext : ℕ)
    → lookup name s.pings ≡ some old
    → ((add_ping s name dnext true).1 ≡ int_lt dnext old)
      × (lookup name (add_ping s name dnext true).0.pings
          ≡ some (if int_lt dnext old then dnext else old))
unfolding add_ping
add_ping_overwrite s name old dnext e = elim (Bool-cases (int_lt dnext old)) [
  | inl h ↦ rw (e, h, add_ping) (refl, lookup_assigned s name dnext)
  | inr h ↦ rw (e, h, add_ping) (refl, e)
]
