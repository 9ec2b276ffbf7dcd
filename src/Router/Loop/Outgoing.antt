-- ===== src/Router/Loop/Outgoing.antt =====
-- The packets that Tema-1-PCom sends: frames for an interface of the array of skel.c.
use teme_pcom_anul_2_sem.Prelude.{
  ℕ, zero, suc, ◌≡◌, ◌<◌, List, [], ◌∷◌, Option, some, none, get_elem?, drop, All, arith, IsBytes,
  Option-cases, inl, inr, subst, ◌++◌,
}
use teme_pcom_anul_2_sem.Router.Route.{
  RtableEntry, Ending, found, outside, unfinished, get_best_route,
}
use teme_pcom_anul_2_sem.Router.Headers.{Packet, Links, put}
use teme_pcom_anul_2_sem.Router.Icmp.{
  send_icmp, icmp_handler, is_garbage, icmp_echoreply, icmp_time_exceeded,
}
use teme_pcom_anul_2_sem.Router.Icmp.Replies.{IsLinks}
use teme_pcom_anul_2_sem.Router.Outcome.{Outcome, done, fault, endless, best_route}
use teme_pcom_anul_2_sem.Router.Arp.{ArpEntry, arp_requester, arp_replier}
use teme_pcom_anul_2_sem.Router.Loop.{resolved}
use teme_pcom_anul_2_sem.Router.Loop.Frames.{
  IsFrame, IsMac, resolved-IsFrame, addressed-IsFrame, arp_requester-IsFrame, arp_replier-IsFrame,
  send_icmp-IsFrame,
}
use teme_pcom_anul_2_sem.Router.Receive.{router_num_interfaces}

pub record IsOutgoing (m : Packet) : Type 0 where
  pub frame : IsFrame m
  pub inside : m.interface < router_num_interfaces

-- Every route names an interface of the array.
abbrev pub IsWired : List RtableEntry → Type 0
IsWired rtable = All (λ e. e.interface < router_num_interfaces) rtable

get_elem-All {ℓ κ} :
    {A : Type ℓ} (P : A → Type κ) (xs : List A) (i : ℕ) (a : A)
    → All P xs
    → get_elem? xs i ≡ some a
    → P a
get_elem-All P [] i a w h = absurd cc
get_elem-All P (x ∷ xs) zero a w h = let e : x ≡ a = cc in subst P e w.0
get_elem-All P (x ∷ xs) (suc i) a w h = get_elem-All P xs i a w.1 h

pub drop-All {ℓ κ} :
    {A : Type ℓ} (P : A → Type κ) (n : ℕ) (xs : List A) → All P xs → All P (drop n xs)
drop-All P zero xs w = w
drop-All P (suc n) [] w = w
drop-All P (suc n) (x ∷ xs) w = drop-All P n xs w.1

-- `best_route` on the end of the search.
abbrev route_at : List RtableEntry → Ending → Outcome (Option RtableEntry)
route_at rtable o = elim o [
  | found none ↦ done none
  | found (some i) ↦ elim (get_elem? rtable i) [ none ↦ fault | some e ↦ done (some e) ]
  | outside ↦ fault
  | unfinished ↦ endless
]

pub best_route-IsWired :
    (rounds : ℕ) (rtable : List RtableEntry) (dest_ip : ℕ) (route : RtableEntry)
    → IsWired rtable
    → best_route rounds rtable dest_ip ≡ done (some route)
    → route.interface < router_num_interfaces
best_route-IsWired rounds rtable dest_ip route w h =
    (elim (get_best_route rounds rtable dest_ip)
        as (λ o. route_at rtable o ≡ done (some route) → route.interface < router_num_interfaces) [
          | found none ↦ λ e. absurd cc
          | found (some i) ↦ λ e. elim (Option-cases (get_elem? rtable i)) [
            | inl beyond ↦ absurd (cc (e, beyond))
            | inr (x, here) ↦
                get_elem-All (λ e. e.interface < router_num_interfaces) rtable i route w
                  (cc (e, here))
          ]
          | outside ↦ λ e. absurd cc
          | unfinished ↦ λ e. absurd cc
        ])
      h

module _ (links : Links) (ws : IsLinks links) (macs : (i : ℕ) → IsBytes (links.mac_of i)) where
  pub resolved-IsOutgoing :
      (m : Packet) (route : RtableEntry) (e : ArpEntry)
      → IsFrame m
      → IsMac e.mac
      → route.interface < router_num_interfaces
      → IsOutgoing (resolved links m route e)
  resolved-IsOutgoing m route e f w h = record {
    frame = resolved-IsFrame links ws macs m route e f w;
    inside = h;
  }

  pub addressed-IsOutgoing :
      (m : Packet) (interface : ℕ) (mac : List ℕ)
      → IsOutgoing m
      → IsMac mac
      → IsOutgoing (put m 0 (mac ++ links.mac_of interface))
  addressed-IsOutgoing m interface mac f w = record {
    frame = addressed-IsFrame links ws macs m interface mac f.frame w;
    inside = f.inside;
  }

  pub arp_requester-IsOutgoing :
      (route : RtableEntry)
      → route.interface < router_num_interfaces
      → IsOutgoing (arp_requester links route)
  unfolding arp_requester
  arp_requester-IsOutgoing route h = record {
    frame = arp_requester-IsFrame links ws macs route;
    inside = h;
  }

  pub arp_replier-IsOutgoing : (m : Packet) → IsOutgoing m → IsOutgoing (arp_replier links m)
  unfolding arp_replier
  arp_replier-IsOutgoing m f = record {
    frame = arp_replier-IsFrame links ws macs m f.frame;
    inside = f.inside;
  }

  pub send_icmp-IsOutgoing :
      (m : Packet) (type : ℕ) → type < 256 → IsOutgoing m → IsOutgoing (send_icmp links m type)
  unfolding send_icmp
  send_icmp-IsOutgoing m type t f = record {
    frame = send_icmp-IsFrame links ws macs m type t f.frame;
    inside = f.inside;
  }

  pub icmp_handler-IsOutgoing :
      (m : Packet) → IsOutgoing m → All IsOutgoing (icmp_handler links m).1
  unfolding icmp_handler
  icmp_handler-IsOutgoing m f =
      ground (arith, send_icmp-IsOutgoing m icmp_echoreply (omega arith) f)

  pub is_garbage-IsOutgoing : (m : Packet) → IsOutgoing m → All IsOutgoing (is_garbage links m).1
  unfolding is_garbage
  is_garbage-IsOutgoing m f =
      ground (arith, send_icmp-IsOutgoing m icmp_time_exceeded (omega arith) f)
