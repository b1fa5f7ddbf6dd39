-- ===== src/Tests/Texts.antt =====
-- Texts of instants and of quoted strings.
use poison_trace.Base.{◌≡◌, refl}
use poison_trace.Text.{codes, decimal}
use poison_trace.Text.Quote.{quote}
use poison_trace.Time.{unix}
use poison_trace.Time.Format.{format_rfc3339}

epoch : format_rfc3339 (unix 0) ≡ codes "1970-01-01T00:00:00Z"
unfolding format_rfc3339 unix decimal
epoch = refl

leap_day : format_rfc3339 (unix 1_709_251_199) ≡ codes "2024-02-29T23:59:59Z"
unfolding format_rfc3339 unix decimal
leap_day = refl

quoted : quote (codes "a\"b\u{1f}") ≡ codes "\"a\\\"b\\x1f\""
unfolding quote
quoted = refl
