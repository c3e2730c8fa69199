-- ===== src/Deploy/Port.antt =====
-- Which ports of RabbitMQ can be set.
use mrvacommander.Prelude.{
  ℕ, ◌^◌, pos, Bytes, Bool, Option, none, some, err, ltb, if◌then◌else◌, Bool-cases, inl, inr,
  ascii, ◌≡◌, refl, arith,
}
use mrvacommander.Prelude.Decimal.{parse_int, format_int, parse_int-format_int, parse_int-too_large}
use mrvacommander.Common.Errors.{wrapped, not_a_number}
use mrvacommander.Deploy.{
  getenv, init_rabbit_mq, validate_env_vars, rabbit_env_vars, Connector, or_wrapped,
}

-- The port that NewRabbitMQQueue is called with, or the error of `strconv.ParseInt`.
parsed_port :
    (n : ℕ) → parse_int 16 (format_int (pos n)) ≡ (if ltb n (2 ^ 15) then some (pos n) else none)
parsed_port n = elim (Bool-cases (ltb n (2 ^ 15))) [
  | inl e ↦ rw e (parse_int-format_int 16 (pos n) (ground arith))
  | inr e ↦ rw e (parse_int-too_large 16 n (ground arith))
]

-- If the variables are set and the port is a number, the queue is made with that port if it is
-- below 32768; any higher one is refused, also those up to 65535.
pub init_rabbit_mq-port :
    {Q : Type 0} (env : Bytes → Option Bytes) (connect : Connector Q) (is_agent : Bool) (n : ℕ)
    → validate_env_vars env rabbit_env_vars ≡ some tt
    → getenv (env (ascii "MRVA_RABBITMQ_PORT")) ≡ format_int (pos n)
    → init_rabbit_mq env connect is_agent
      ≡ some (
          if ltb n (2 ^ 15)
          then or_wrapped (ascii "failed to initialize RabbitMQ") (
              connect
                (getenv (env (ascii "MRVA_RABBITMQ_HOST")))
                (pos n)
                (getenv (env (ascii "MRVA_RABBITMQ_USER")))
                (getenv (env (ascii "MRVA_RABBITMQ_PASSWORD")))
                is_agent)
          else err
              (wrapped (ascii "failed to parse RabbitMQ port") (not_a_number (format_int (pos n)))))
unfolding init_rabbit_mq
init_rabbit_mq-port env connect is_agent n set is_port = elim (Bool-cases (ltb n (2 ^ 15))) [
  | inl e ↦ rw (set, is_port, parsed_port n, e) refl
  | inr e ↦ rw (set, is_port, parsed_port n, e) refl
]
