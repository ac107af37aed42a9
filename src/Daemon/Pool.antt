-- ===== src/Daemon/Pool.antt =====
-- The idle connections of `client` in core/daemon/client.go. A connection is a number; `dialed` and
-- `closed` record what has been opened and closed. Times are nanoseconds.
use torii_db.Base.{
  ℕ, ◌-◌, ◌*◌, Bool, Option, none, some, List, [], ◌∷◌, ◌++◌, length, ltb, leb, if◌then◌else◌,
}

abbrev pub max_idle_conns : ℕ
max_idle_conns = 8

abbrev pub idle_window : ℕ
idle_window = 5 * 1000000000

pub record Pooled : Type 0 where
  pub conn : ℕ
  pub used_at : ℕ

-- The last connection that was put is the first of `idle`.
pub record Pool : Type 0 where
  pub idle : List Pooled
  pub dialed : List ℕ
  pub closed : List ℕ

abbrev pub new_client : Pool
new_client = record { idle = []; dialed = []; closed = [] }

unfoldable pub close_conn : ℕ → Pool → Pool
close_conn conn p = record p { closed = conn ∷ p.closed }

-- What `take` leaves of the idle connections, the one that it gives, and those that it closes.
unfoldable pub take_fresh : ℕ → List Pooled → List ℕ → List Pooled × Option ℕ × List ℕ
take_fresh now [] closed = ([], none, closed)
take_fresh now (last ∷ rest) closed =
    let older = take_fresh now rest (last.conn ∷ closed) in
    if ltb (now - last.used_at) idle_window then (rest, some last.conn, closed) else older

unfoldable pub take_conn : ℕ → Pool → Pool × Option ℕ
take_conn now p =
    let (idle, found, closed) = take_fresh now p.idle p.closed in
    (record p { idle = idle; closed = closed }, found)

unfoldable pub put_conn : ℕ → ℕ → Bool → Pool → Pool
put_conn now conn reusable p =
    if reusable
    then (if leb max_idle_conns (length p.idle)
        then close_conn conn p
        else record p { idle = record { conn = conn; used_at = now } ∷ p.idle })
    else close_conn conn p

abbrev pub conns : List Pooled → List ℕ
conns [] = []
conns (c ∷ cs) = c.conn ∷ conns cs

unfoldable pub close_client : Pool → Pool
close_client p = record p { idle = []; closed = conns p.idle ++ p.closed }

unfoldable pub add_dialed : ℕ → Pool → Pool
add_dialed conn p = record p { dialed = conn ∷ p.dialed }
