-- ===== src/Pubsub/Server/Disconnection.antt =====
-- What `client_disconnected` of server_funs.cpp do to the two client maps.
use teme_pcom_anul_2_sem.Prelude.{
  Bool, true, false, if◌then◌else◌, codes, ℕ, ◌≡◌, refl, List, [], ◌∷◌, ◌++◌, Text, text_discrete,
  none, some, ite, arith,
}
use teme_pcom_anul_2_sem.Dict.{
  lookup, erase, lookup-insert, lookup-erase, IsOrdered, insert-IsOrdered, erase-IsOrdered,
}
use teme_pcom_anul_2_sem.Pubsub.Client.{Client}
use teme_pcom_anul_2_sem.Pubsub.Server.State.{close, print, ok, ClientMap, FdSet, fd_clr}
use teme_pcom_anul_2_sem.Pubsub.Server.Sessions.{Disconnection, store_client, client_disconnected}

abbrev pub keeps_topics : List Text → Bool
keeps_topics [] = false
keeps_topics (t ∷ ts) = true

-- A client that disconnects leaves the connected clients, and is stored exactly if it has a topic
-- with store-and-forward.
pub record Disconnects (i : ℕ) (fds : FdSet) (id : Text) (connected saved : ClientMap) (c : Client)
    (d : Disconnection) : Type 0 where
  pub left : (j : Text) → lookup j d.connected ≡ ite (text_discrete id j) none (lookup j connected)
  pub stored :
      (j : Text)
      → lookup j d.saved ≡ (
          if keeps_topics c.sf
          then ite (text_discrete id j) (some c) (lookup j saved)
          else lookup j saved)
  pub ordered : IsOrdered d.connected
  pub ordered_saved : IsOrdered d.saved
  pub unwatched : d.read_fds ≡ fd_clr i fds
  pub announced :
      d.effects ≡ print (codes "Client " ++ (id ++ codes " disconnected.")) ∷ close i ∷ []

store_client-IsOrdered :
    (id : Text) (c : Client) (sf : List Text) (saved : ClientMap)
    → IsOrdered saved
    → IsOrdered (store_client id c sf saved)
unfolding store_client
store_client-IsOrdered id c [] saved o = o
store_client-IsOrdered id c (t ∷ sf) saved o = insert-IsOrdered id c saved o

lookup-store_client :
    (id : Text) (c : Client) (sf : List Text) (saved : ClientMap)
    → lookup id saved ≡ none
    → (j : Text)
    → lookup j (store_client id c sf saved) ≡ (
        if keeps_topics sf
        then ite (text_discrete id j) (some c) (lookup j saved)
        else lookup j saved)
unfolding store_client
lookup-store_client id c [] saved away j = refl
lookup-store_client id c (t ∷ sf) saved away j = lookup-insert j id c saved away

-- With both maps in key order, a connected client without a stored namesake that disconnects
-- leaves the connected clients and the watched descriptors, is stored exactly if it keeps a topic,
-- is announced and has its socket closed.
pub client_disconnected-Disconnects :
    (i : ℕ) (fds : FdSet) (id : Text) (connected saved : ClientMap) (c : Client)
    → lookup id connected ≡ some c
    → lookup id saved ≡ none
    → IsOrdered connected
    → IsOrdered saved
    → (d : Disconnection) × (client_disconnected i fds id connected saved ≡ ok d)
      × Disconnects i fds id connected saved c d
unfolding client_disconnected store_client
client_disconnected-Disconnects i fds id connected saved c h away oc os = (
  record {
    saved = store_client id c c.sf saved;
    connected = erase id connected;
    read_fds = fd_clr i fds;
    effects = print (codes "Client " ++ (id ++ codes " disconnected.")) ∷ close i ∷ [];
  },
  ground arith,
  record {
    left = λ j. lookup-erase j id connected;
    stored = lookup-store_client id c c.sf saved away;
    ordered = erase-IsOrdered id connected oc;
    ordered_saved = store_client-IsOrdered id c c.sf saved os;
    unwatched = refl;
    announced = refl;
  },
)
