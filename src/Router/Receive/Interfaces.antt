-- ===== src/Router/Receive/Interfaces.antt =====
-- The interfaces by their names: get_sock, init, get_interface_mac and get_interface_ip of
-- Tema-1-PCom/skel.c.
use teme_pcom_anul_2_sem.Prelude.{
  ℕ, zero, suc, ◌+◌, ◌-◌, Bool, ◌&&◌, Option, none, some, ltb, ◌^◌, ◌≡◌, ◌<◌, refl, sym, ap, ◌∙◌,
  List, [], ◌∷◌, ◌++◌, ◌==◌, if◌then◌else◌, arith, length, length-take, take, drop, get_or, Text,
  codes, to_string, append-nil,
}
use teme_pcom_anul_2_sem.Router.Headers.{Links}
use teme_pcom_anul_2_sem.Router.Outcome.{Outcome, done, fault, ◌>>=◌}
use teme_pcom_anul_2_sem.Router.Receive.{router_num_interfaces}
use teme_pcom_anul_2_sem.Router.Icmp.Replies.{IsLinks}
use teme_pcom_anul_2_sem.Router.Files.{atoi}
use teme_pcom_anul_2_sem.Router.Files.Numbers.{atoi-to_string}

-- `get_sock`: the descriptor from `socket`, `none` for −1, if `ioctl` finds the interface and
-- `bind` succeeds; otherwise DIE.
unfoldable pub get_sock : Option ℕ → Bool → Bool → Option ℕ
get_sock none indexed bound = none
get_sock (some s) indexed bound = if indexed && bound then some s else none

-- `init` from interface `i` on: the descriptors for the names, `none` after DIE, or a write behind
-- the array `interfaces`.
unfoldable pub init : (Text → Option ℕ) → ℕ → List Text → Outcome (Option (List ℕ))
init sock_for i [] = done (some [])
init sock_for i (name ∷ names) =
    let rest = init sock_for (i + 1) names in
    elim (sock_for name) [
      | none ↦ done none
      | some s ↦
          if ltb i router_num_interfaces
          then (rest >>= λ more. elim more [ none ↦ done none | some fds ↦ done (some (s ∷ fds)) ])
          else fault
    ]

-- Three names whose sockets open fill the array.
init_three :
    (sock_for : Text → Option ℕ) (a b c : Text) (x y z : ℕ)
    → sock_for a ≡ some x
    → sock_for b ≡ some y
    → sock_for c ≡ some z
    → init sock_for 0 (a ∷ b ∷ c ∷ []) ≡ done (some (x ∷ y ∷ z ∷ []))
unfolding init
init_three sock_for a b c x y z ha hb hc = rw (init, ha, hb, hc) refl

-- A fourth one is written behind it.
init_four :
    (sock_for : Text → Option ℕ) (a b c d : Text) (x y z u : ℕ)
    → sock_for a ≡ some x
    → sock_for b ≡ some y
    → sock_for c ≡ some z
    → sock_for d ≡ some u
    → init sock_for 0 (a ∷ b ∷ c ∷ d ∷ []) ≡ fault
unfolding init
init_four sock_for a b c d x y z u ha hb hc hd = rw (init, ha, hb, hc, hd) refl

-- The name that both functions write into `ifr_name`; `interface - 1` is printed as unsigned.
unfoldable pub interface_name : ℕ → Text
interface_name interface =
    if interface == 0 then codes "rr-0-1" else codes "r-" ++ to_string (interface - 1)

-- `get_interface_mac`; `hwaddr` is what SIOCGIFHWADDR puts into `sa_data` for a name.
abbrev pub get_interface_mac : (Text → List ℕ) → ℕ → List ℕ
get_interface_mac hwaddr interface = take 6 (hwaddr (interface_name interface))

-- `inet_addr(get_interface_ip(interface))`: the address is printed and read again.
abbrev pub get_interface_ip : (Text → ℕ) → ℕ → ℕ
get_interface_ip addr interface = addr (interface_name interface)

-- The answers of the system as the router uses them.
abbrev pub links_of : (Text → List ℕ) → (Text → ℕ) → Links
links_of hwaddr addr = record { mac_of = get_interface_mac hwaddr; ip_of = get_interface_ip addr }

-- With the 14 bytes of `sa_data` and addresses of 32 bits they have their sizes.
pub links_of-IsLinks :
    (hwaddr : Text → List ℕ) (addr : Text → ℕ)
    → ((name : Text) → length (hwaddr name) ≡ 14)
    → ((name : Text) → addr name < 2 ^ 32)
    → IsLinks (links_of hwaddr addr)
links_of-IsLinks hwaddr addr h a = record {
  mac_of = λ i. omega (arith, length-take 6 (hwaddr (interface_name i)), h (interface_name i));
  ip_of = λ i. a (interface_name i);
}

to_string_back : (n : ℕ) → n < 2 ^ 32 → atoi (to_string n) ≡ n
to_string_back n h = ap atoi (sym (append-nil (to_string n))) ∙ atoi-to_string n [] h refl

later_name : (i : ℕ) → interface_name (suc i) ≡ codes "r-" ++ to_string (suc i - 1)
unfolding interface_name
later_name i = ground arith

first_later : (i : ℕ) → interface_name 0 ≡ interface_name (suc i) → ◌≡◌ {A = ℕ} 114 45
unfolding interface_name
first_later i e = ap (λ t. get_or t 1 0) (e ∙ later_name i)

-- Two interfaces have two names.
pub interface_name-injective :
    (i j : ℕ) → i < 2 ^ 31 → j < 2 ^ 31 → interface_name i ≡ interface_name j → i ≡ j
interface_name-injective zero zero hi hj e = refl
interface_name-injective zero (suc j) hi hj e = absurd (omega (arith, first_later j e))
interface_name-injective (suc i) zero hi hj e = absurd (omega (arith, first_later i (sym e)))
interface_name-injective (suc i) (suc j) hi hj e =
    let numbers : atoi (to_string (suc i - 1)) ≡ atoi (to_string (suc j - 1)) =
      ap (λ t. atoi (drop 2 t)) (sym (later_name i) ∙ e ∙ later_name j) in
    omega (
      arith,
      numbers,
      to_string_back (suc i - 1) (omega (arith, hi)),
      to_string_back (suc j - 1) (omega (arith, hj)),
    )
