-- ===== src/Setup/Release.antt =====
-- What is held after the set-up has failed or succeeded.
use model_test.Prelude.{ℕ, ◌+◌, ◌≤◌, ◌≡◌, refl, Bool, true, false, ◌&&◌, if◌then◌else◌, arith}
use model_test.Rdma.{Outcome, finished, failed, exited, spinning, ◌>>=◌}
use model_test.Setup.{
  Held, context_add_event_fd, context_del_event_fd, memory_register, event_channel_create, Outcomes,
  out, out_event_channel, out_send_mr, after_recv, after_send, is_added, after_channel,
  transport_alloc, transport_create,
}

-- But for the event data of epoll, `h'` holds what `h` does.
pub record IsReleased (h h' : Held) : Type 0 where
  pub structs : h'.structs ≡ h.structs
  pub event_data : h.event_data ≤ h'.event_data
  pub fds : h'.fds ≡ h.fds
  pub event_channels : h'.event_channels ≡ h.event_channels
  pub comp_channels : h'.comp_channels ≡ h.comp_channels
  pub cqs : h'.cqs ≡ h.cqs
  pub qps : h'.qps ≡ h.qps
  pub regions : h'.regions ≡ h.regions
  pub registrations : h'.registrations ≡ h.registrations

-- what a made transport holds
pub record IsMade (is_listen : Bool) (h h' : Held) : Type 0 where
  pub structs : h'.structs ≡ h.structs + 1
  pub event_channels : h'.event_channels ≡ h.event_channels + 1
  pub regions : h'.regions ≡ (if is_listen then h.regions else h.regions + 2)
  pub registrations :
      h'.registrations ≡ (if is_listen then h.registrations else h.registrations + 2)
  pub comp_channels : h'.comp_channels ≡ h.comp_channels
  pub cqs : h'.cqs ≡ h.cqs
  pub qps : h'.qps ≡ h.qps

-- `Crash` is what is known when the process has ended.
abbrev pub IsDone : (is_listen : Bool) (Crash : Type 0) → Held → Outcome (Held × Bool) → Type 0
IsDone is_listen Crash h (finished (h', true)) = IsMade is_listen h h'
IsDone is_listen Crash h (finished (h', false)) = IsReleased h h'
IsDone is_listen Crash h exited = Crash
IsDone is_listen Crash h (failed r) = ⊥
IsDone is_listen Crash h (spinning r) = ⊥

-- While a transport is being made from `h`: its struct and its channel, and `n` registered regions.
record IsOpen (added : Bool) (n : ℕ) (h h' : Held) : Type 0 where
  structs : h'.structs ≡ h.structs + 1
  event_data : h.event_data ≤ h'.event_data
  fds : h'.fds ≡ (if added then h.fds + 1 else h.fds)
  event_channels : h'.event_channels ≡ h.event_channels + 1
  comp_channels : h'.comp_channels ≡ h.comp_channels
  cqs : h'.cqs ≡ h.cqs
  qps : h'.qps ≡ h.qps
  regions : h'.regions ≡ h.regions + n
  registrations : h'.registrations ≡ h.registrations + n

out_event_channel-IsReleased :
    (added : Bool) (h h' : Held) → IsOpen added 0 h h' → IsReleased h (out_event_channel added h')
unfolding out_event_channel out context_del_event_fd
out_event_channel-IsReleased true h h' o = omega arith
out_event_channel-IsReleased false h h' o = omega arith

out_send_mr-IsReleased :
    (added : Bool) (h h' : Held) → IsOpen added 1 h h' → IsReleased h (out_send_mr added h')
unfolding out_send_mr
out_send_mr-IsReleased added h h' o = out_event_channel-IsReleased added h _ (ground arith)

recv-IsDone :
    (alloc reg added : Bool) (Crash : Type 0) (h h' : Held)
    → (alloc ≡ false → Crash)
    → IsOpen added 1 h h'
    → IsDone false Crash h (memory_register alloc reg h' >>= after_recv added)
unfolding after_recv memory_register
recv-IsDone false reg added Crash h h' crash o = crash refl
recv-IsDone true false added Crash h h' crash o = out_send_mr-IsReleased added h _ (ground arith)
recv-IsDone true true added Crash h h' crash o = ground arith

send-IsDone :
    (o : Outcomes) (alloc reg added : Bool) (Crash : Type 0) (h h' : Held)
    → (alloc ≡ false → Crash)
    → (o.recv_alloc ≡ false → Crash)
    → IsOpen added 0 h h'
    → IsDone false Crash h (memory_register alloc reg h' >>= after_send o added)
unfolding after_send memory_register
send-IsDone o false reg added Crash h h' crash crash2 p = crash refl
send-IsDone o true false added Crash h h' crash crash2 p =
    out_event_channel-IsReleased added h _ (ground arith)
send-IsDone o true true added Crash h h' crash crash2 p =
    recv-IsDone o.recv_alloc o.recv_reg added Crash h _ crash2 (ground arith)

opened :
    (alloc ctl : Bool) (h : Held)
    → IsOpen
        (is_added alloc ctl)
        0
        h
        (context_add_event_fd alloc ctl
          (record h { structs = h.structs + 1; event_channels = h.event_channels + 1 })).0
unfolding is_added context_add_event_fd
opened true true h = omega arith
opened true false h = omega arith
opened false ctl h = omega arith

open-IsMade : (added : Bool) (h h' : Held) → IsOpen added 0 h h' → IsMade true h h'
open-IsMade added h h' o = ground arith

-- dhmp_transport_create, whichever of its calls fail and whether or not the transport is for
-- listening, ends the process, only if there is no memory for one of the two regions, or fails
-- and then holds what was held before, but for the event data of epoll, or succeeds and then
-- holds one struct and one event channel more and, unless for listening, two registered regions
-- more.
pub transport_create-IsDone :
    (is_listen trans create nonblock event_alloc event_ctl send_alloc send_reg recv_alloc
      recv_reg : Bool)
    (h : Held)
    → let o : Outcomes = record {
      trans = trans;
      create = create;
      nonblock = nonblock;
      event_alloc = event_alloc;
      event_ctl = event_ctl;
      send_alloc = send_alloc;
      send_reg = send_reg;
      recv_alloc = recv_alloc;
      recv_reg = recv_reg;
    } in
      IsDone is_listen ((send_alloc && recv_alloc) ≡ false) h (transport_create is_listen o h)
unfolding transport_create transport_alloc event_channel_create after_channel out
transport_create-IsDone l false create nonblock ea ec sa sr ra rr h = omega arith
transport_create-IsDone l true false nonblock ea ec sa sr ra rr h = omega arith
transport_create-IsDone l true true false ea ec sa sr ra rr h = omega arith
transport_create-IsDone true true true true ea ec sa sr ra rr h =
    open-IsMade (is_added ea ec) h _ (opened ea ec h)
transport_create-IsDone false true true true ea ec sa sr ra rr h =
    send-IsDone _ sa sr (is_added ea ec) _ h _ (λ e. ground (arith, e)) (λ e. ground (arith, e))
      (opened ea ec h)
