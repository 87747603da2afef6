-- ===== src/Graph/Endpoint.antt =====
-- apps/web/app/api/graphql/route.ts. The library's `graphql` is an argument, and so is the session of the
-- request, which is none where `getSession` throws. Constant headers and the page are left out.
use openwrapper.Prelude.{ℕ, Bool, false, Option, none, some, [], ◌∷◌, ltb, if◌then◌else◌}
use openwrapper.Js.Text.{or_text, Text, codes, includes, present}
use openwrapper.Js.Json.{Json, null, str, get}
use openwrapper.Store.{World, RequestRecord}
use openwrapper.Store.Handler.{Handler, ◌>>=◌, ◌>>◌, pure, gets, answer, schedule, when}
use openwrapper.Access.Authenticator.{AuthKey}
use openwrapper.Console.Session.{SessionUser}
use openwrapper.Graph.Resolvers.{GraphContext, no_context}

-- What `graphql` gives: the number of errors, if it has any list of them, and the data.
pub record GraphResult : Type 0 where
  pub errors : Option ℕ
  pub payload : Option Json

pub data GraphReply : Type 0 where
  explorer : GraphReply
  malformed : (message : Text) → GraphReply
  executed : (status : ℕ) → GraphResult → GraphReply

abbrev of_session : Option SessionUser → GraphContext
of_session none = no_context
of_session (some u) = record {
  user_id = some u.id;
  user_email = some u.email;
  user_name = some u.name;
}

abbrev with_key : GraphContext → Option AuthKey → GraphContext × Option ℕ
with_key context none = (context, none)
with_key context (some k) =
    (record { user_id = some k.user_id; user_email = none; user_name = none }, some k.id)

-- The context: the session's user, or else the user of the API key; and the id of that key.
unfoldable pub context_of : Option SessionUser → Option AuthKey → GraphContext × Option ℕ
context_of session key =
    if present (of_session session).user_id
    then (of_session session, none)
    else with_key (of_session session) key

abbrev has_errors : GraphResult → Bool
has_errors r = elim r.errors [ none ↦ false | some n ↦ ltb 0 n ]

-- `result.errors && !result.data ? 400 : 200`
abbrev status_of : GraphResult → ℕ
status_of r = elim r.errors [ none ↦ 200 | some n ↦ elim r.payload [ none ↦ 400 | some v ↦ 200 ] ]

abbrev record_of : Text → Option ℕ → ℕ → GraphResult → RequestRecord
record_of user key_id started_at r = record {
  user_id = user;
  api_key_id = key_id;
  method = codes "POST";
  endpoint = codes "/api/graphql";
  status_code = if has_errors r then 400 else 200;
  started_at = started_at;
  routing_latency_ms = none;
  environment = none;
}

module _ (graphql : Text → Option Json → Option Json → GraphContext → World → GraphResult)
    (authenticate : World → Option AuthKey) (session : Option SessionUser) (started_at : ℕ) where
  abbrev answered : Option ℕ → GraphContext → GraphResult → Handler GraphReply GraphReply
  answered key_id context result = do
    when (present context.user_id)
        (schedule (record_of (or_text context.user_id []) key_id started_at result))
    pure (executed (status_of result) result)

  -- `executeGraphQL`
  unfoldable pub execute_graphql : Text → Option Json → Option Json → Handler GraphReply GraphReply
  unfolding context_of
  execute_graphql query variables operation_name = do
    key ← gets authenticate
    result ← gets (graphql query variables operation_name (context_of session key).0)
    answered (context_of session key).1 (context_of session key).0 result

  abbrev with_query : Option Text → Handler GraphReply GraphReply
  with_query none =
      answer
        (malformed (codes "Missing 'query' parameter. Navigate with browser to open GraphiQL IDE."))
  with_query (some []) =
      answer
        (malformed (codes "Missing 'query' parameter. Navigate with browser to open GraphiQL IDE."))
  with_query (some (c ∷ s)) = execute_graphql (c ∷ s) (some null) (some null)

  -- `GET`, with the header `accept` and the parameter `query`.
  unfoldable pub get_graphql : Option Text → Option Text → Handler GraphReply GraphReply
  unfolding execute_graphql includes
  get_graphql accept query =
      if includes (or_text accept []) (codes "text/html") then pure explorer else with_query query

  -- `body.query` must be a text that is not empty.
  abbrev body_query : Option Json → Option Text
  body_query (some (str (c ∷ s))) = some (c ∷ s)
  body_query _ = none

  abbrev post_query : Option Text → Json → Handler GraphReply GraphReply
  post_query none body =
      answer (malformed (codes "Field 'query' is required and must be a GraphQL query string."))
  post_query (some query) body =
      execute_graphql query (get body (codes "variables")) (get body (codes "operationName"))

  -- `POST`; a body that is no JSON, or null, throws, and the message names the error.
  unfoldable pub post_graphql : Text → Option Json → Handler GraphReply GraphReply
  unfolding execute_graphql get
  post_graphql message none = answer (malformed message)
  post_graphql message (some null) = answer (malformed message)
  post_graphql message (some body) = post_query (body_query (get body (codes "query"))) body
