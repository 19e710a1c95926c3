-- ===== src/Network/Interceptor.antt =====
-- cmd/dstest/network/interceptor.go, and the start of the three kinds of interceptor in
-- Http2CInterceptor.go, HttpInterceptor.go and TCPInterceptor.go. Listening on a port is done by the
-- operating system: `listen` is the error that it answers, or `none`.
use dstest.Prelude.{ℕ, Bool, true, false, Option, none, some, Outcome, ok, fatal, if◌then◌else◌}
use dstest.Prelude.Text.{Text, codes, text_eq}

pub data Kind : Type 0 where
  http2c http tcp : Kind

pub record Interceptor : Type 0 where
  pub kind : Kind
  pub is_initialized : Bool
  pub port : ℕ
  pub id : ℕ

abbrev pub blank : Kind → Interceptor
blank kind = record { kind = kind; is_initialized = false; port = 0; id = 0 }

-- The interceptor, or the message of the error.
unfoldable pub create_interceptor : Text → Option Interceptor
create_interceptor interceptor_type =
    if text_eq interceptor_type (codes "http2c")
    then some (blank http2c)
    else if text_eq interceptor_type (codes "http")
    then some (blank http)
    else if text_eq interceptor_type (codes "tcp")
    then some (blank tcp)
    else none

unfoldable pub init : ℕ → ℕ → Interceptor → Interceptor
init id port ni = record ni { id = id; port = port; is_initialized = true }

unfoldable pub base_run : Interceptor → Option Text
base_run ni = if ni.is_initialized then none else some (codes "Interceptor is not initialized")

http2c_run : Option Text → Interceptor → Outcome (Option Text)
http2c_run listen ni = if ni.is_initialized then ok listen else fatal

http_run : Option Text → Interceptor → Outcome (Option Text)
http_run listen ni = ok listen

tcp_run : Option Text → Interceptor → Outcome (Option Text)
tcp_run listen ni = elim (base_run ni) [ some e ↦ ok (some e) | none ↦ ok listen ]

run_as : Kind → Option Text → Interceptor → Outcome (Option Text)
run_as http2c = http2c_run
run_as http = http_run
run_as tcp = tcp_run

-- The error that `Run` returns.
unfoldable pub run : Option Text → Interceptor → Outcome (Option Text)
unfolding http2c_run http_run tcp_run base_run run_as
run listen ni = run_as ni.kind listen ni
