-- ===== src/Health.antt =====
-- server/src/health/prisma.health.ts and redis.health.ts: the two probes of readiness. The database
-- and the client of Redis are parameters.
use field_note.Common.{
  ◌≡◌, refl, ◌++◌, Text, codes, text_eq, Bool-cases, inl, inr, not, if◌then◌else◌,
}
use field_note.Result.{
  ErrorKind, Error, error, Result, ok, err, M, lift, pure, throw, try_catch, try_finally, ◌>>=◌,
  ◌>>◌,
}

-- HealthIndicatorResult
pub data Indicator : Type 0 where
  up : Indicator
  down : Text → Indicator

module _ {C : Type 0} where
  abbrev pub caught : M C Indicator → M C Indicator
  caught m = try_catch m (λ e. pure (Indicator.down e.message))

  -- PrismaHealthIndicator.isHealthy
  unfoldable pub prisma_is_healthy : M C (Unit {0}) → M C Indicator
  unfolding try_catch ◌>>=◌ pure
  prisma_is_healthy select_one = caught (select_one >> pure Indicator.up)

pub record RedisClient (C : Type 0) : Type 0 where
  pub connect : M C (Unit {0})
  pub ping : M C Text
  pub disconnect : C → C

unexpected_reply : Text → Error
unexpected_reply pong = error ErrorKind.plain (codes "unexpected ping reply: " ++ pong)

module _ {C : Type 0} where
  read_reply : Text → M C Indicator
  unfolding unexpected_reply pure throw
  read_reply pong =
      if not (text_eq pong (codes "PONG")) then throw (unexpected_reply pong) else pure Indicator.up

  -- RedisHealthIndicator.isHealthy
  unfoldable pub redis_is_healthy : RedisClient C → M C Indicator
  unfolding read_reply try_catch try_finally ◌>>=◌ pure
  redis_is_healthy client =
      try_finally (caught (client.connect >> client.ping >>= read_reply))
        (λ c. (ok tt, client.disconnect c))

-- What a probe should say of the reply to a ping.
abbrev pub verdict : Result Text → Indicator
verdict (ok pong) =
    if text_eq pong (codes "PONG")
    then Indicator.up
    else Indicator.down (codes "unexpected ping reply: " ++ pong)
verdict (err e) = Indicator.down e.message

module _ {C : Type 0} (client : RedisClient C) where
  -- The rest of the probe, from the reply on.
  replied :
      (r : Result Text) (c : C)
      → try_finally (caught (lift r >>= read_reply)) (λ c. (ok tt, client.disconnect c)) c
        ≡ (ok (verdict r), client.disconnect c)
  unfolding read_reply try_catch try_finally ◌>>=◌ pure throw lift unexpected_reply
  replied (err e) c = refl
  replied (ok pong) c = elim (Bool-cases (text_eq pong (codes "PONG"))) [
    | inl e ↦ rw e refl
    | inr e ↦ rw e refl
  ]

  -- The probe of Redis returns whatever happens: up where the connection is made and the reply is PONG,
  -- and down otherwise, with the message of what went wrong; and it always disconnects.
  pub redis_is_healthy_lem :
      (c : C)
      → redis_is_healthy client c ≡ (
        ok (verdict ((client.connect >> client.ping) c).0),
        client.disconnect ((client.connect >> client.ping) c).1,
      )
  unfolding redis_is_healthy try_catch try_finally ◌>>=◌ pure lift
  redis_is_healthy_lem c = let (r, c') = (client.connect >> client.ping) c in replied r c'
