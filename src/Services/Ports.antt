-- ===== src/Services/Ports.antt =====
-- charmhelpers/core/services/base.py, class PortManagerCallback, with `_port_op` of
-- charmhelpers/core/hookenv.py. The port file holds the decimal texts of the ports between commas;
-- it is the list of the ports here.
use charm_helpers.Prelude.{
  ℕ, ◌≡◌, refl, List, [], ◌∷◌, ◌++◌, Bool, true, false, not, ◌&&◌, ◌||◌, Option, some, arith, ◌==◌,
  if◌then◌else◌, or_else,
}
use charm_helpers.Services.{Event, start, stop, data_ready, data_lost}

-- A port is a number or 'ICMP'.
pub data Port : Type 0 where
  number : ℕ → Port
  icmp : Port

pub data Protocol : Type 0 where
  tcp icmp_protocol : Protocol

-- One call of the tool open-port or close-port, with its argument.
pub data Argument : Type 0 where
  port_and_protocol : Port → Protocol → Argument
  protocol_only : Protocol → Argument

pub data Command : Type 0 where
  open_port close_port : Argument → Command

-- `_port_op`: the argument
pub port_op : Port → Protocol → Argument
port_op port tcp = port_and_protocol port tcp
port_op port icmp_protocol = protocol_only icmp_protocol

abbrev pub same_port : Port → Port → Bool
same_port (number a) (number b) = a == b
same_port icmp icmp = true
same_port (number a) icmp = false
same_port icmp (number b) = false

-- `ports_contains`
unfoldable pub ports_contains : Port → List Port → Bool
ports_contains port [] = false
ports_contains port (p ∷ ps) = same_port port p || ports_contains port ps

-- the loop over the old ports: those that are gone are closed, by the default protocol
pub close_gone : List Port → List Port → List Command
unfolding ports_contains port_op
close_gone [] new = []
close_gone (p ∷ old) new =
    let rest = close_gone old new in
    if ports_contains p new then rest else close_port (port_op p tcp) ∷ rest

pub protocol_of : Port → Protocol
protocol_of (number n) = tcp
protocol_of icmp = icmp_protocol

-- the loop over the new ports
pub event_commands : Event → List Port → List Command
unfolding protocol_of port_op
event_commands event [] = []
event_commands start (p ∷ ps) = open_port (port_op p (protocol_of p)) ∷ event_commands start ps
event_commands stop (p ∷ ps) = close_port (port_op p (protocol_of p)) ∷ event_commands stop ps
event_commands data_ready (p ∷ ps) = event_commands data_ready ps
event_commands data_lost (p ∷ ps) = event_commands data_lost ps

-- `__call__`: the commands in order, and the port file that it leaves
pub manage_ports : Event → List Port → Option (List Port) → List Command × List Port
unfolding close_gone event_commands
manage_ports event new file = (close_gone (or_else file []) new ++ event_commands event new, new)

-- What the commands do to a TCP port: Juju's documented effect of the two tools on `n/tcp`.
abbrev pub tcp_after : ℕ → Bool → List Command → Bool
tcp_after n is_open [] = is_open
tcp_after n is_open (open_port (port_and_protocol (number m) tcp) ∷ cs) =
    tcp_after n (if m == n then true else is_open) cs
tcp_after n is_open (close_port (port_and_protocol (number m) tcp) ∷ cs) =
    tcp_after n (if m == n then false else is_open) cs
tcp_after n is_open (c ∷ cs) = tcp_after n is_open cs

tcp_after-append :
    (n : ℕ) (b : Bool) (xs ys : List Command)
    → tcp_after n b (xs ++ ys) ≡ tcp_after n (tcp_after n b xs) ys
tcp_after-append n b [] ys = refl
tcp_after-append n b (open_port (port_and_protocol (number m) tcp) ∷ cs) ys =
    tcp_after-append n (if m == n then true else b) cs ys
tcp_after-append n b (close_port (port_and_protocol (number m) tcp) ∷ cs) ys =
    tcp_after-append n (if m == n then false else b) cs ys
tcp_after-append n b (c ∷ cs) ys = tcp_after-append n b cs ys

tcp_after-close_gone :
    (n : ℕ) (b : Bool) (old new : List Port)
    → tcp_after n b (close_gone old new)
      ≡ (b && not (ports_contains (number n) old && not (ports_contains (number n) new)))
unfolding close_gone port_op ports_contains
tcp_after-close_gone n b [] new = ground arith
tcp_after-close_gone n b (icmp ∷ old) new = ground (arith, tcp_after-close_gone n b old new)
tcp_after-close_gone n b (number m ∷ old) new = ground (
  arith,
  tcp_after-close_gone n b old new,
  tcp_after-close_gone n (if m == n then false else b) old new,
)

tcp_after-start :
    (n : ℕ) (b : Bool) (new : List Port)
    → tcp_after n b (event_commands start new) ≡ (b || ports_contains (number n) new)
unfolding event_commands port_op protocol_of ports_contains
tcp_after-start n b [] = ground arith
tcp_after-start n b (icmp ∷ ps) = ground (arith, tcp_after-start n b ps)
tcp_after-start n b (number m ∷ ps) =
    ground (arith, tcp_after-start n (if m == n then true else b) ps)

tcp_after-stop :
    (n : ℕ) (b : Bool) (new : List Port)
    → tcp_after n b (event_commands stop new) ≡ (b && not (ports_contains (number n) new))
unfolding event_commands port_op protocol_of ports_contains
tcp_after-stop n b [] = ground arith
tcp_after-stop n b (icmp ∷ ps) = ground (arith, tcp_after-stop n b ps)
tcp_after-stop n b (number m ∷ ps) =
    ground (arith, tcp_after-stop n (if m == n then false else b) ps)

-- Where every command succeeds, a numbered port is open after the start event exactly if it is
-- among the service's ports, or was open and is not in the port file; after the stop event exactly
-- if it was open and is neither among the ports nor in the file. The port file then lists the ports.
pub manage_ports_tcp :
    (n : ℕ) (was_open : Bool) (new : List Port) (file : Option (List Port))
    → (tcp_after n was_open (manage_ports start new file).0 ≡ (
        ports_contains (number n) new
        || (was_open && not (ports_contains (number n) (or_else file [])))))
      × (tcp_after n was_open (manage_ports stop new file).0 ≡ (
          was_open
          && (not (ports_contains (number n) new)
              && not (ports_contains (number n) (or_else file [])))))
      × ((manage_ports start new file).1 ≡ new)
      × ((manage_ports stop new file).1 ≡ new)
unfolding manage_ports
manage_ports_tcp n was_open new file =
    let gone = close_gone (or_else file []) new in
    let mid = tcp_after n was_open gone in
    let cut = tcp_after-close_gone n was_open (or_else file []) new in
    (
      ground (
        arith,
        tcp_after-append n was_open gone (event_commands start new),
        cut,
        tcp_after-start n mid new,
      ),
      ground (
        arith,
        tcp_after-append n was_open gone (event_commands stop new),
        cut,
        tcp_after-stop n mid new,
      ),
      refl,
      refl,
    )

-- `close-port ICMP`, the form in which ICMP is closed
abbrev pub closes_icmp : List Command → Bool
closes_icmp [] = false
closes_icmp (close_port (protocol_only icmp_protocol) ∷ cs) = true
closes_icmp (c ∷ cs) = closes_icmp cs

-- `close-port ICMP/TCP`, which names no port
abbrev pub closes_icmp_as_tcp : List Command → Bool
closes_icmp_as_tcp [] = false
closes_icmp_as_tcp (close_port (port_and_protocol icmp tcp) ∷ cs) = true
closes_icmp_as_tcp (c ∷ cs) = closes_icmp_as_tcp cs

closes_icmp-start :
    (old new : List Port) (ps : List Port)
    → closes_icmp (close_gone old new ++ event_commands start ps) ≡ false
unfolding close_gone event_commands port_op protocol_of
closes_icmp-start [] new [] = refl
closes_icmp-start [] new (number m ∷ ps) = closes_icmp-start [] new ps
closes_icmp-start [] new (icmp ∷ ps) = closes_icmp-start [] new ps
closes_icmp-start (number m ∷ old) new ps = ground (arith, closes_icmp-start old new ps)
closes_icmp-start (icmp ∷ old) new ps = ground (arith, closes_icmp-start old new ps)

closes_icmp_as_tcp-start :
    (old new : List Port) (ps : List Port)
    → ports_contains icmp new ≡ false
    → ports_contains icmp old ≡ true
    → closes_icmp_as_tcp (close_gone old new ++ event_commands start ps) ≡ true
unfolding close_gone port_op ports_contains
closes_icmp_as_tcp-start [] new ps gone there = cc
closes_icmp_as_tcp-start (number m ∷ old) new ps gone there =
    ground (arith, closes_icmp_as_tcp-start old new ps)
closes_icmp_as_tcp-start (icmp ∷ old) new ps gone there = ground arith

-- When a service that had ICMP among its ports no longer has it, the start event never runs
-- `close-port ICMP`; it runs `close-port ICMP/TCP`.
pub dropped_icmp_stays_open :
    (new : List Port) (file : List Port)
    → ports_contains icmp new ≡ false
    → ports_contains icmp file ≡ true
    → (closes_icmp (manage_ports start new (some file)).0 ≡ false)
      × (closes_icmp_as_tcp (manage_ports start new (some file)).0 ≡ true)
unfolding manage_ports
dropped_icmp_stays_open new file gone there =
    (closes_icmp-start file new new, closes_icmp_as_tcp-start file new new gone there)
