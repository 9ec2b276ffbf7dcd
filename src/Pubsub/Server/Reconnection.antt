-- ===== src/Pubsub/Server/Reconnection.antt =====
-- What `send_missed` of server_funs.cpp does to the two client maps.
use teme_pcom_anul_2_sem.Prelude.{
  ℕ, suc, ◌≡◌, refl, List, [], ◌∷◌, Text, text_discrete, none, some, ite, arith, length, map, ap,
}
use teme_pcom_anul_2_sem.Dict.{
  lookup, insert, erase, modify, lookup-insert, lookup-erase, lookup-modify, IsOrdered,
  insert-IsOrdered, erase-IsOrdered, modify-IsOrdered,
}
use teme_pcom_anul_2_sem.Pubsub.Message.{CliMsg}
use teme_pcom_anul_2_sem.Pubsub.Client.{Client, set_client_socket, pop_missed, pop_missed_lem}
use teme_pcom_anul_2_sem.Pubsub.Server.State.{Effect, send, message, ok, ClientMap}
use teme_pcom_anul_2_sem.Pubsub.Server.Sessions.{
  drain_missed, Reconnection, move_client, send_missed,
}

abbrev pub drained : Client → Client
drained c = record c { missed = [] }

-- The loop sends the whole queue in order, and empties it in the map.
record Drains (queue : List CliMsg) (id : Text) (new_fd : ℕ) (saved : ClientMap) (c : Client)
    (r : ClientMap × List Effect × ℕ) : Type 0 where
  sent : r.1 ≡ map (λ m. send new_fd (message m)) queue
  counted : r.2 ≡ length queue
  emptied : (j : Text) → lookup j r.0 ≡ ite (text_discrete id j) (some (drained c)) (lookup j saved)
  ordered : IsOrdered r.0

modify_self :
    (id : Text) (f : Client → Client) (saved : ClientMap) (c : Client)
    → lookup id saved ≡ some c
    → lookup id (modify id f saved) ≡ some (f c)
modify_self id f saved c h = ground (arith, lookup-modify id id f saved)

drain_missed_lem :
    (queue : List CliMsg) (id : Text) (new_fd : ℕ) (saved : ClientMap) (c : Client)
    → lookup id saved ≡ some c
    → c.missed ≡ queue
    → IsOrdered saved
    → Drains queue id new_fd saved c (drain_missed queue id new_fd saved)
unfolding drain_missed
drain_missed_lem [] id new_fd saved c h q o = record {
  sent = refl;
  counted = refl;
  emptied = λ j. ground arith;
  ordered = o;
}
drain_missed_lem (m ∷ queue) id new_fd saved c h q o =
    let popped = modify_self id pop_missed saved c h in
    let rest =
      drain_missed_lem queue id new_fd (modify id pop_missed saved) (pop_missed c) popped
        (cc (ap (λ (d : Client). d.missed) (pop_missed_lem c q)))
        (modify-IsOrdered id pop_missed saved o) in
    record {
      sent = ap (◌∷◌ (send new_fd (message m))) rest.sent;
      counted = ap suc rest.counted;
      emptied = λ j.
          ground
            (arith, rest.emptied j, lookup-modify j id pop_missed saved, pop_missed_lem c q, h);
      ordered = rest.ordered;
    }

-- A client that reconnects: its queue is sent in order, it moves to the connected clients with the
-- new socket and an empty queue, and no other client changes.
pub record Reconnects (saved connected : ClientMap) (id : Text) (new_fd : ℕ) (c : Client)
    (r : Reconnection) : Type 0 where
  pub sent : r.sent ≡ map (λ m. send new_fd (message m)) c.missed
  pub counted : r.missed ≡ length c.missed
  pub joined :
      (j : Text)
      → lookup j r.connected
        ≡ ite
            (text_discrete id j)
            (some (record c { client_socket = new_fd; missed = [] }))
            (lookup j connected)
  pub left : (j : Text) → lookup j r.saved ≡ ite (text_discrete id j) none (lookup j saved)
  pub ordered : IsOrdered r.connected
  pub ordered_saved : IsOrdered r.saved

-- The map and the client that the loop leaves, moved.
moved : Text → ℕ → ClientMap → ClientMap
moved id new_fd saved = erase id (modify id (set_client_socket new_fd) saved)

move_client-ok :
    (id : Text) (new_fd : ℕ) (saved connected : ClientMap) (c : Client)
    → lookup id saved ≡ some c
    → move_client id new_fd saved connected
      ≡ ok (moved id new_fd saved, insert id (set_client_socket new_fd c) connected)
unfolding move_client moved
move_client-ok id new_fd saved connected c h =
    ground (arith, modify_self id (set_client_socket new_fd) saved c h)

moved-IsOrdered :
    (id : Text) (new_fd : ℕ) (saved : ClientMap)
    → IsOrdered saved
    → IsOrdered (moved id new_fd saved)
unfolding moved
moved-IsOrdered id new_fd saved o =
    erase-IsOrdered id _ (modify-IsOrdered id (set_client_socket new_fd) saved o)

lookup-moved :
    (j id : Text) (new_fd : ℕ) (saved : ClientMap)
    → lookup j (moved id new_fd saved) ≡ ite (text_discrete id j) none (lookup j saved)
unfolding moved
lookup-moved j id new_fd saved = ground (
  arith,
  lookup-erase j id (modify id (set_client_socket new_fd) saved),
  lookup-modify j id (set_client_socket new_fd) saved,
)

-- With both maps in key order, send_missed on a stored client that is not connected sends its
-- queue in order, counts it, connects the client under the new socket with an empty queue, removes
-- it from the stored clients and changes no other client.
pub send_missed-Reconnects :
    (saved connected : ClientMap) (id : Text) (new_fd : ℕ) (c : Client)
    → lookup id saved ≡ some c
    → lookup id connected ≡ none
    → IsOrdered connected
    → IsOrdered saved
    → (r : Reconnection) × (send_missed saved connected id new_fd ≡ ok (some r))
      × Reconnects saved connected id new_fd c r
unfolding send_missed set_client_socket
send_missed-Reconnects saved connected id new_fd c h away oc os =
    let d = drain_missed_lem c.missed id new_fd saved c h refl os in
    let loop = drain_missed c.missed id new_fd saved in
    let renewed = set_client_socket new_fd (drained c) in
    (
      record {
        saved = moved id new_fd loop.0;
        connected = insert id renewed connected;
        sent = loop.1;
        missed = loop.2;
      },
      ground (arith, move_client-ok id new_fd loop.0 connected (drained c), d.emptied id),
      record {
        sent = d.sent;
        counted = d.counted;
        joined = λ j. ground (arith, lookup-insert j id renewed connected away);
        left = λ j. ground (arith, lookup-moved j id new_fd loop.0, d.emptied j);
        ordered = insert-IsOrdered id renewed connected oc;
        ordered_saved = moved-IsOrdered id new_fd loop.0 d.ordered;
      },
    )

-- -1 exactly for a client that is not stored.
pub send_missed-none :
    (saved connected : ClientMap) (id : Text) (new_fd : ℕ)
    → lookup id saved ≡ none
    → send_missed saved connected id new_fd ≡ ok none
unfolding send_missed
send_missed-none saved connected id new_fd h = ground arith
