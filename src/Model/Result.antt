-- ===== src/Model/Result.antt =====
-- mognet/model/result.py: the class `Result` as a record, and its properties. Times are numbers.
use project_mognet.Prelude.Int.{ℤ, sub_ℕ}
use project_mognet.Prelude.{ℕ, ◌-◌, String, Bool, Option, none, some}
use project_mognet.Model.State.{
  ResultState, pending, revoked, state_eq, is_in, ready_states, success_states, error_states,
}

pub record Result : Type 0 where
  pub id : ℕ
  pub name : Option String
  pub state : ResultState
  pub number_of_starts : ℕ
  pub number_of_stops : ℕ
  pub parent_id : Option ℕ
  pub created : Option ℕ
  pub started : Option ℕ
  pub finished : Option ℕ
  pub node_id : Option String
  pub request_kwargs_repr : Option String

-- `Result(backend, id=id)`: the defaults of the class.
abbrev pub fresh : ℕ → Result
fresh id = record {
  id = id;
  name = none;
  state = pending;
  number_of_starts = 0;
  number_of_stops = 0;
  parent_id = none;
  created = none;
  started = none;
  finished = none;
  node_id = none;
  request_kwargs_repr = none;
}

unfoldable pub done : Result → Bool
unfolding is_in
done r = is_in r.state ready_states

unfoldable pub successful : Result → Bool
unfolding is_in
successful r = is_in r.state success_states

unfoldable pub failed : Result → Bool
unfolding is_in
failed r = is_in r.state error_states

unfoldable pub is_revoked : Result → Bool
unfolding state_eq
is_revoked r = state_eq r.state revoked

-- `max(0, starts - stops)`: the subtraction of ℕ stops at 0.
unfoldable pub unexpected_retry_count : Result → ℕ
unexpected_retry_count r = r.number_of_starts - r.number_of_stops

-- Both times are needed; the difference is signed, as a `timedelta` is.
elapsed : Option ℕ → Option ℕ → Option ℤ
elapsed none _ = none
elapsed (some a) none = none
elapsed (some a) (some b) = some (sub_ℕ b a)

unfoldable pub duration : Result → Option ℤ
unfolding elapsed
duration r = elapsed r.started r.finished

unfoldable pub queue_time : Result → Option ℤ
unfolding elapsed
queue_time r = elapsed r.created r.started
