-- ===== src/Router/Receive/First.antt =====
-- get_packet takes the packet from the first interface that has one.
use teme_pcom_anul_2_sem.Prelude.{
  ℕ, zero, suc, ◌+◌, ◌-◌, ◌≡◌, ◌≤◌, ◌<◌, refl, ap, sym, subst, ◌∙◌, true, false, Option, some, List,
  [], ◌∷◌, arith, length, take, drop, get_or, get_elem?, IsBytes, write_at, length-write_at,
  drop_behind-write_at, write_at-IsBytes, take-append, ℕ_discrete,
}
use teme_pcom_anul_2_sem.Router.Headers.{Packet, max_len}
use teme_pcom_anul_2_sem.Router.Loop.Frames.{IsFrame}
use teme_pcom_anul_2_sem.Router.Receive.{
  router_num_interfaces, packet_received, socket_receive_message, fd_isset, select, first_set,
  get_packet,
}

-- What is left is readable, and a readable descriptor below `nfds` is left.
selected_lem :
    (nfds : ℕ) (set readable : List ℕ) (fd : ℕ)
    → fd_isset readable fd ≡ false
    → fd_isset (select nfds set readable) fd ≡ false
selected_lem nfds [] readable fd h = refl
selected_lem nfds (f ∷ set) readable fd h = elim (ℕ_discrete fd f) [
  | yes same ↦
      let silent : fd_isset readable f ≡ false = subst (λ k. fd_isset readable k ≡ false) same h in
      ground (arith, silent, selected_lem nfds set readable fd h)
  | no other ↦ ground (arith, other, selected_lem nfds set readable fd h)
]

-- The descriptors of the interfaces in front of `i` are not readable.
abbrev pub Quiet : List ℕ → List ℕ → ℕ → Type 0
Quiet readable [] i = Unit
Quiet readable (fd ∷ interfaces) zero = Unit
Quiet readable (fd ∷ interfaces) (suc i) =
    (fd_isset readable fd ≡ false) × Quiet readable interfaces i

left_lem :
    (nfds : ℕ) (set readable : List ℕ) (i fd : ℕ)
    → get_elem? set i ≡ some fd
    → fd < nfds
    → fd_isset readable fd ≡ true
    → fd_isset (select nfds set readable) fd ≡ true
left_lem nfds [] readable i fd at l h = absurd (cc at)
left_lem nfds (f ∷ set) readable zero fd at l h =
    let same : f ≡ fd = cc at in
    let loud : fd_isset readable f ≡ true = subst (λ k. fd_isset readable k ≡ true) (sym same) h in
    ground (arith, same, loud)
left_lem nfds (f ∷ set) readable (suc i) fd at l h =
    ground (arith, left_lem nfds set readable i fd at l h)

first_set_lem :
    (nfds : ℕ) (whole readable interfaces : List ℕ) (start i fd : ℕ)
    → get_elem? interfaces i ≡ some fd
    → fd_isset (select nfds whole readable) fd ≡ true
    → Quiet readable interfaces i
    → first_set (select nfds whole readable) start interfaces ≡ some (start + i, fd)
unfolding first_set
first_set_lem nfds whole readable [] start i fd at h q = absurd (cc at)
first_set_lem nfds whole readable (f ∷ interfaces) start zero fd at h q =
    let same : f ≡ fd = cc at in
    let loud : fd_isset (select nfds whole readable) f ≡ true =
      subst (λ k. fd_isset (select nfds whole readable) k ≡ true) (sym same) h in
    let here : start + 0 ≡ start = omega arith in rw (loud, same, here) refl
first_set_lem nfds whole readable (f ∷ interfaces) start (suc i) fd at h q =
    let more : start + 1 + i ≡ start + suc i = omega arith in
    rw (selected_lem nfds whole readable f q.0) (
      first_set_lem nfds whole readable interfaces (start + 1) i fd at h q.1
      ∙ ap (λ k. some (k, fd)) more)

-- Interface `i`, with descriptor `fd`, is the first that is readable, and the last interface has
-- the greatest descriptor.
pub record IsFirst (interfaces readable : List ℕ) (i fd : ℕ) : Type 0 where
  pub interface : get_elem? interfaces i ≡ some fd
  pub below : fd ≤ get_or interfaces (router_num_interfaces - 1) 0
  pub loud : fd_isset readable fd ≡ true
  pub quiet : Quiet readable interfaces i

-- What the packet holds after the bytes have been read.
abbrev pub filled : List ℕ → ℕ → Packet → Packet
filled bytes i m = record {
  len = length bytes;
  payload = write_at 0 bytes m.payload;
  interface = i;
}

pub filled-IsFrame :
    (bytes : List ℕ) (i : ℕ) (m : Packet)
    → length bytes ≤ max_len
    → IsBytes bytes
    → IsFrame m
    → IsFrame (filled bytes i m)
filled-IsFrame bytes i m fits w f = record {
  size = length-write_at 0 bytes m.payload (omega (arith, fits, f.size)) ∙ f.size;
  bytes = write_at-IsBytes 0 bytes m.payload w f.bytes;
  fits = fits;
}

-- The bytes of a packet stand at its start.
take-write_at_start {ℓ} : {A : Type ℓ} (bs p : List A) → take (length bs) (write_at 0 bs p) ≡ bs
take-write_at_start bs p = take-append bs (drop (0 + length bs) p) (length bs) refl

-- C
pub get_packet-first :
    (read : ℕ → Option (List ℕ)) (interfaces readable bytes : List ℕ)
    (answers : List (Option (List ℕ))) (m : Packet) (i fd : ℕ)
    → IsFirst interfaces readable i fd
    → read fd ≡ some bytes
    → length bytes ≤ max_len
    → IsBytes bytes
    → IsFrame m
    → (m' : Packet) × (get_packet read interfaces (some readable ∷ answers) m ≡ packet_received m')
      × IsFrame m'
      × (m'.interface ≡ i)
      × (take m'.len m'.payload ≡ bytes)
      × (drop m'.len m'.payload ≡ drop m'.len m.payload)
unfolding get_packet socket_receive_message
get_packet-first read interfaces readable bytes answers m i fd h got fits w f =
    let nfds = get_or interfaces (router_num_interfaces - 1) 0 + 1 in
    let in_set =
      left_lem nfds interfaces readable i fd h.interface (omega (arith, h.below)) h.loud in
    let first =
      first_set_lem nfds interfaces readable interfaces 0 i fd h.interface in_set h.quiet in
    let start : 0 + i ≡ i = omega arith in
    let begins : 0 + length bytes ≡ length bytes = omega arith in
    let room : 0 + length bytes ≤ length m.payload = omega (arith, fits, f.size) in
    (
      filled bytes i m,
      rw (get_packet, first, got, start) refl,
      filled-IsFrame bytes i m fits w f,
      refl,
      take-write_at_start bytes m.payload,
      subst (λ k. drop k (write_at 0 bytes m.payload) ≡ drop k m.payload) begins
          (drop_behind-write_at 0 bytes m.payload room),
    )
