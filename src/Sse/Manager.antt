-- ===== src/Sse/Manager.antt =====
-- sse/manager.go: the set of open connections and its bound.
-- A connection is a number, for two of them differ as pointers; its context is cancelled once its
-- number stands among the closed ones.
pub mod Invariant
mod Tests
use xray_web_maneger.Common.{
  ℕ, ◌+◌, Bool, true, false, not, ◌==◌, Option, none, some, List, [], ◌∷◌, ◌++◌, leb, length,
  keep_if, if◌then◌else◌,
}

abbrev pub default_max_conns : ℕ
default_max_conns = 256

pub record Manager : Type 0 where
  pub connections : List ℕ
  pub shutdown : Bool
  pub max_conns : ℕ
  -- The connections whose contexts were cancelled, and the next number.
  pub closed : List ℕ
  pub next : ℕ

abbrev pub new_manager : Manager
new_manager = record {
  connections = [];
  shutdown = false;
  max_conns = default_max_conns;
  closed = [];
  next = 0;
}

unfoldable pub add : Manager → Manager × Option ℕ
add m =
    if m.shutdown
    then (m, none)
    else if leb m.max_conns (length m.connections)
    then (m, none)
    else (record m { connections = m.next ∷ m.connections; next = m.next + 1 }, some m.next)

unfoldable pub remove : Manager → Option ℕ → Manager
remove m none = m
remove m (some conn) = record m { connections = keep_if (λ c. not (c == conn)) m.connections }

-- sseConnection.Close, from the handler that holds the connection.
unfoldable pub close : Manager → ℕ → Manager
close m conn = record m { closed = conn ∷ m.closed }

unfoldable pub close_all : Manager → Manager
close_all m = record m { shutdown = true; closed = m.connections ++ m.closed; connections = [] }

pub count : Manager → ℕ
count m = length m.connections

pub data Call : Type 0 where
  adds : Call
  removes : Option ℕ → Call
  closes : ℕ → Call
  closes_all : Call

unfoldable pub step : Manager → Call → Manager
step m adds = (add m).0
step m (removes conn) = remove m conn
step m (closes conn) = close m conn
step m closes_all = close_all m

pub run : Manager → List Call → Manager
run m [] = m
run m (c ∷ cs) = run (step m c) cs
