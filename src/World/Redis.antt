-- ===== src/World/Redis.antt =====
-- The commands of Redis that the guards and the one-time codes send: INCR, PEXPIRE, EXPIRE, PTTL,
-- TTL, GET, SET … EX and DEL, at an instant of its clock in milliseconds. A key whose end has passed
-- is gone; at the end itself it is still there.
use last_chance_platform.Prelude.{
  ℕ, suc, ◌+◌, ◌-◌, ◌*◌, ◌/◌, Bool, true, false, Option, none, some, leb, if◌then◌else◌,
}
use last_chance_platform.Prelude.Result.{ok, err}
use last_chance_platform.Errors.{plain}
use last_chance_platform.Domain.Auth.{
  RedisKey, same_key, RedisValue, counter, stored_otp, RedisEntry,
}
use last_chance_platform.World.Effects.{M}

abbrev pub Redis : Type 0
Redis = RedisKey → Option RedisEntry

-- the entry, unless its end has passed
unfoldable pub live : ℕ → Option RedisEntry → Option RedisEntry
live now none = none
live now (some e) = elim e.expires_at [
  | none ↦ some e
  | some t ↦ if leb now t then some e else none
]

unfoldable pub put : RedisKey → Option RedisEntry → Redis → Redis
put key e r k = if same_key key k then e else r k

abbrev pub count_of : Option RedisEntry → ℕ
count_of none = 0
count_of (some e) = elim e.value [ counter n ↦ n | stored_otp _ _ ↦ 0 ]

abbrev pub end_of : Option RedisEntry → Option ℕ
end_of none = none
end_of (some e) = e.expires_at

-- INCR keeps the end that the key has.
unfoldable pub incr : ℕ → RedisKey → Redis → ℕ × Redis
incr now key r =
    let e = live now (r key) in
    let n = suc (count_of e) in
    (n, put key (some (record { value = counter n; expires_at = end_of e })) r)

unfoldable pub end_at : Option RedisEntry → ℕ → Option RedisEntry
end_at none t = none
end_at (some e) t = some (record e { expires_at = some t })

-- PEXPIRE, and EXPIRE with its seconds as milliseconds
unfoldable pub pexpire : ℕ → RedisKey → ℕ → Redis → Unit {0} × Redis
pexpire now key ms r = (tt, put key (end_at (live now (r key)) (now + ms)) r)

-- The answer of PTTL: no such key (-2), no end (-1), or what is left.
pub data Remaining : Type 0 where
  gone endless : Remaining
  left : ℕ → Remaining

unfoldable pub remaining : ℕ → Option RedisEntry → Remaining
remaining now none = gone
remaining now (some e) = elim e.expires_at [ none ↦ endless | some t ↦ left (t - now) ]

unfoldable pub pttl : ℕ → RedisKey → Redis → Remaining × Redis
pttl now key r = (remaining now (live now (r key)), r)

-- TTL gives whole seconds, rounded to the nearest.
unfoldable pub in_seconds : Remaining → Remaining
in_seconds gone = gone
in_seconds endless = endless
in_seconds (left ms) = left ((ms + 500) / 1000)

unfoldable pub ttl : ℕ → RedisKey → Redis → Remaining × Redis
ttl now key r = (in_seconds (remaining now (live now (r key))), r)

abbrev pub value_of : Option RedisEntry → Option RedisValue
value_of none = none
value_of (some e) = some e.value

unfoldable pub get : ℕ → RedisKey → Redis → Option RedisValue × Redis
get now key r = (value_of (live now (r key)), r)

-- SET … EX
unfoldable pub set_ex : ℕ → RedisKey → RedisValue → ℕ → Redis → Unit {0} × Redis
set_ex now key v seconds r =
    (tt, put key (some (record { value = v; expires_at = some (now + seconds * 1000) })) r)

unfoldable pub del : RedisKey → Redis → Unit {0} × Redis
del key r = (tt, put key none r)

-- One command of the connection, which throws when Redis does not answer.
unfoldable pub command : {A : Type 0} → Bool → (Redis → A × Redis) → M A
command true f w = let (a, r) = f w.redis in (ok a, record w { redis = r })
command false f w = (err plain, w)
