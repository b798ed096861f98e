-- ===== src/SessionCommands/Valid/Play.antt =====
-- The playing and gathering commands of src/session-commands.ts: each ends in a valid action or in a
-- refusal.
use rtc_session_gateway.Base.{none, some}
use rtc_session_gateway.SessionCommands.Valid.{with_body-Meets, IsValid, IsPlay}
use rtc_session_gateway.SessionCommands.Meets.{returns, bind, IsOptionalText, Meets}
use rtc_session_gateway.SessionCommands.Meets.Parameters.{
  optional_number-Meets, optional_boolean-Meets, optional_positive_integer-Meets,
  parse_optional_headers-Meets, optional_integer-Meets, optional_string-Meets,
  optional_nullable_integer-Meets, required_string-Meets,
}
use rtc_session_gateway.Json.{Json, Fields}
use rtc_session_gateway.SessionCommands.Gathering.{
  gather, play_and_gather, leave_message, first_string,
}
use rtc_session_gateway.SessionCommands.Playing.{play, play_params, play_and_wait}
use rtc_session_gateway.SessionCommands.{some, String, Option, SessionCommandHandler}

play_params-Meets : (body : Fields) → Meets IsPlay (play_params body)
unfolding play_params
play_params-Meets body = bind (required_string-Meets _ _) λ source s.
    bind (optional_nullable_integer-Meets _ _) λ loop_count l.
      bind (optional_integer-Meets _ _) λ ttl t. bind (parse_optional_headers-Meets _) λ headers h.
        returns _ (record { source_text = s; loop_count_integer = l; cache_ttl_integer = t })

pub play-Meets : (h : SessionCommandHandler) (params : Json) → Meets (IsValid h) (play h params)
unfolding play
play-Meets h params = with_body-Meets h params _ λ body m.
    bind (required_string-Meets _ _)
      λ id p. bind (play_params-Meets body) λ what q. returns _ (p, q, m)

pub play_and_wait-Meets :
    (h : SessionCommandHandler) (params : Json) → Meets (IsValid h) (play_and_wait h params)
unfolding play_and_wait
play_and_wait-Meets h params = with_body-Meets h params _ λ body m.
    bind (required_string-Meets _ _) λ id p.
      bind (required_string-Meets _ _)
        λ source q. bind (optional_positive_integer-Meets _ _) λ timeout t. returns _ (p, q, t, m)

pub gather-Meets : (h : SessionCommandHandler) (params : Json) → Meets (IsValid h) (gather h params)
unfolding gather
gather-Meets h params = with_body-Meets h params _ λ body m.
    bind (required_string-Meets _ _) λ id p. bind (required_string-Meets _ _) λ endpoint e.
      bind (optional_positive_integer-Meets _ _) λ num_digits n.
        bind (optional_positive_integer-Meets _ _) λ timeout t.
          bind (optional_positive_integer-Meets _ _) λ inter_digit i.
            bind (optional_string-Meets _ _) λ terminator z.
              bind (optional_boolean-Meets _ _) λ sensitive b. returns _ (
                p,
                record {
                  endpoint_text = e;
                  num_digits_positive = n;
                  timeout_positive = t;
                  inter_digit_positive = i;
                  terminator_text = z;
                },
                m,
              )

pub play_and_gather-Meets :
    (h : SessionCommandHandler) (params : Json) → Meets (IsValid h) (play_and_gather h params)
unfolding play_and_gather
play_and_gather-Meets h params = with_body-Meets h params _ λ body m.
    bind (required_string-Meets _ _) λ id p. bind (required_string-Meets _ _) λ endpoint e.
      bind (play_params-Meets body) λ what q.
        bind (optional_positive_integer-Meets _ _) λ num_digits n.
          bind (optional_positive_integer-Meets _ _) λ timeout t.
            bind (optional_positive_integer-Meets _ _) λ inter_digit i.
              bind (optional_string-Meets _ _) λ terminator z.
                bind (optional_boolean-Meets _ _) λ stop_playback x.
                  bind (optional_positive_integer-Meets _ _) λ post_playback y.
                    bind (optional_boolean-Meets _ _) λ sensitive b. returns _ (
                      p,
                      record {
                        endpoint_text = e;
                        num_digits_positive = n;
                        timeout_positive = t;
                        inter_digit_positive = i;
                        terminator_text = z;
                      },
                      q,
                      y,
                      m,
                    )

first_string-Meets :
    (first : Option String) (v : Json) (name : String)
    → IsOptionalText first
    → Meets IsOptionalText (first_string first v name)
unfolding first_string
first_string-Meets (some text) v name p = returns (some text) p
first_string-Meets none v name p = optional_string-Meets v name

pub leave_message-Meets :
    (h : SessionCommandHandler) (params : Json) → Meets (IsValid h) (leave_message h params)
unfolding leave_message
leave_message-Meets h params = with_body-Meets h params _ λ body m.
    bind (required_string-Meets _ _) λ id p. bind (required_string-Meets _ _) λ endpoint e.
      bind (optional_string-Meets _ _) λ message a.
        bind (first_string-Meets message _ _ a) λ source s.
          bind (optional_positive_integer-Meets _ _) λ max_wait w.
            bind (optional_positive_integer-Meets _ _) λ playback b.
              bind (optional_positive_integer-Meets _ _) λ silence i.
                bind (optional_number-Meets _ _) λ threshold t.
                  bind (optional_string-Meets _ _) λ terminator z. returns _ (
                    p,
                    record {
                      endpoint_text = e;
                      source_text = s;
                      max_wait_positive = w;
                      playback_positive = b;
                      silence_positive = i;
                      threshold_finite = t;
                      terminator_text = z;
                    },
                    m,
                  )
