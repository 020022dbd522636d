-- ===== src/Tests/Routing.antt =====
-- The routing table of backend/relay/relay.go on a table with two tunnels of one host.
use roxey.Base.{
  ◌<◌, ◌⊎◌, ℕ, ◌≡◌, ◌+◌, ◌∷◌, [], refl, arith, true, false, Bytes, codes, length, some, none,
  if◌then◌else◌,
}
use roxey.Relay.{
  Entry, Registry, Registered, ok, err, new_registry, register, unregister, resolve, check,
  make_entry, table_at, list_active, make_ready, path_in_use,
}
use roxey.Relay.Invariant.{IsValid, state_of, new_registry-IsValid, register-IsValid}
use roxey.Relay.Admission.{outcome, register-check}
use roxey.Relay.Resolve.{Answer, resolve-Answer, register-resolve, register_refused}
use roxey.Relay.Teardown.{IsStale}
use roxey.Relay.Reordered.{IsReordered}
use roxey.Relay.Restored.{IsRestored, with_order, unregister-register}
use roxey.Relay.Stream.{Session}
use roxey.Tests.{template, host}

-- a root tunnel, and then one for `/api`
abbrev root_entry : Entry
root_entry = make_entry new_registry template 7 [] 100

abbrev one : Registry
one = state_of (register new_registry template [] 7 [] 100)

one-IsValid : IsValid one
one-IsValid = register-IsValid new_registry template [] 7 [] 100 new_registry-IsValid

abbrev api : Bytes
api = codes "/a"

abbrev api_entry : Entry
api_entry = make_entry one template 8 [] 200

abbrev two : Registry
two = state_of (register one template api 8 [] 200)

two-IsValid : IsValid two
two-IsValid = register-IsValid one template api 8 [] 200 one-IsValid

registered : register one template api 8 [] 200 ≡ ok two api_entry
unfolding register make_entry roxey.Base.lookup roxey.Base.insert
registered = refl

refused :
    register two template api 9 [] 300
    ≡ err path_in_use (state_of (register two template api 9 [] 300))
unfolding register make_entry roxey.Base.lookup roxey.Base.insert roxey.Base.sort_onto
    roxey.Base.insert_by
refused = refl

register-IsValid_example : IsValid (state_of (register two template api 9 [] 300))
register-IsValid_example = register-IsValid two template api 9 [] 300 two-IsValid

register-check_example : outcome (register two template api 9 [] 300) ≡ check two host api
register-check_example = register-check two template api 9 [] 300

resolve-Answer_example : Answer (table_at host two) (codes "/a/b") (resolve two host (codes "/a/b"))
resolve-Answer_example = resolve-Answer two host (codes "/a/b") two-IsValid

register-resolve_example : resolve two host (codes "/a/b") ≡ some api_entry
unfolding roxey.Base.equal roxey.Relay.serves roxey.Base.has_prefix roxey.Base.lookup register
    roxey.Base.insert make_entry
register-resolve_example =
    register-resolve one template api 8 [] 200 two api_entry host (codes "/a/b") one-IsValid
      registered

-- the table with one prefix can only be left as it is
in_order : IsReordered (table_at host two) (table_at host two)
unfolding register make_entry roxey.Base.lookup roxey.Base.insert roxey.Base.sort_onto
    roxey.Base.insert_by roxey.Base.equal
in_order = record { same_root = refl; descending = (tt, tt); members = (λ p m. m, λ p m. m) }

unregister-register_example :
    IsRestored one (unregister (with_order two host (table_at host two)) host api api_entry)
unregister-register_example =
    unregister-register one template api 8 [] 200 two api_entry (table_at host two) one-IsValid
      registered in_order

-- the root tunnel of the host has an older address than the one removed
stale : IsStale api_entry (table_at host one)
unfolding make_entry register roxey.Base.lookup roxey.Base.insert
stale = (refl, tt)

register_refused_example :
    resolve (state_of (register two template api 9 [] 300)) host api ≡ resolve two host api
register_refused_example =
    register_refused two template api 9 [] 300 path_in_use
      (state_of (register two template api 9 [] 300)) host api refused

-- a session that opens stream 5, and `Ready` after a second
abbrev session : Session
session = record { closed = false; opened = some 5 }
