-- ===== src/Store/Events.antt =====
-- backend/internal/store/store.go: the history of tunnels.
use roxey.Base.{
  ℕ, ◌≡◌, refl, ◌∙◌, ap, true, false, List, [], ◌∷◌, ◌++◌, map, none, some, arith, Bytes, equal,
  equal_refl, any,
}
use roxey.Store.{Store, EventRow, record_connect, record_disconnect, close_event}

map-close_event :
    (id : Bytes) (now : ℕ) (rows : List EventRow)
    → any (λ e. equal e.id id) rows ≡ false
    → map (close_event id now) rows ≡ rows
map-close_event id now [] h = refl
map-close_event id now (e ∷ rows) h = ground (arith, map-close_event id now rows)

map-append-close :
    (id : Bytes) (now : ℕ) (rows : List EventRow) (last : EventRow)
    → any (λ e. equal e.id id) rows ≡ false
    → equal last.id id ≡ true
    → map (close_event id now) (rows ++ (last ∷ []))
      ≡ rows ++ (record last { disconnected_at = some now } ∷ [])
map-append-close id now [] last h k = ground arith
map-append-close id now (e ∷ rows) last h k = ground (arith, map-append-close id now rows last)

-- A connection that is recorded and then closed leaves one more row, with its two times, and every
-- earlier row as it was.
pub record_disconnect-connect :
    (st opened closed : Store) (user_id service host path remote id : Bytes) (now later : ℕ)
    → record_connect st user_id service host path remote id now ≡ some opened
    → record_disconnect opened id later ≡ some closed
    → closed.tunnel_events
      ≡ st.tunnel_events
        ++ (record {
          id = id;
          user_id = user_id;
          service = service;
          host = host;
          path = path;
          remote = remote;
          connected_at = now;
          disconnected_at = some later;
        }
            ∷ [])
unfolding record_connect record_disconnect
record_disconnect-connect st opened closed user_id service host path remote id now later h k =
    let row : EventRow = record {
      id = id;
      user_id = user_id;
      service = service;
      host = host;
      path = path;
      remote = remote;
      connected_at = now;
      disconnected_at = none;
    } in
    let free : any (λ e. equal e.id id) st.tunnel_events ≡ false = ground arith in
    let added : opened.tunnel_events ≡ st.tunnel_events ++ (row ∷ []) = ground arith in
    let marked : closed.tunnel_events ≡ map (close_event id later) opened.tunnel_events =
      ground arith in
    marked
    ∙ ap (map (close_event id later)) added
    ∙ map-append-close id later st.tunnel_events row free (equal_refl id)
