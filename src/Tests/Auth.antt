-- ===== src/Tests/Auth.antt =====
-- Authentication.
use nest_js_tutorial.Base.{
  ℕ, ◌≡◌, ◌++◌, refl, true, false, Bool, codes, Text, none, some, List, [], ◌∷◌, ◌==◌, find, arith,
}
use nest_js_tutorial.Runtime.{
  Exception, Outcome, returned, thrown, M, Value, str, num, obj, field, end, errors_body,
}
use nest_js_tutorial.Database.{World, User}
use nest_js_tutorial.Database.Statements.{user_by_username, user_by_email}
use nest_js_tutorial.Database.Reliable.{steady_orm}
use nest_js_tutorial.Auth.Registration
use nest_js_tutorial.Auth.Registration.{RegisterRequest, Generated}
use nest_js_tutorial.Auth.Registration.Laws.{IsRegisteredAs}
use nest_js_tutorial.Auth.Registration.Route.{registered_user, create_token, register_route}
use nest_js_tutorial.Auth.Registration.Route.Laws.{
  register_answers, register_route_returned, register_route_answers,
}
use nest_js_tutorial.Articles.Controller.Laws.{IsOneOf}
use nest_js_tutorial.Auth.Limiter.{Counters}
use nest_js_tutorial.Auth.Limiter.Laws.{admitted, smaller, admitted_lem}
use nest_js_tutorial.Auth.Guard.{authenticate, is_token_claims}
use nest_js_tutorial.Common.Filter.{get_field, format_api_exception}
use nest_js_tutorial.Auth.Guard.Laws.{IsAuthenticated, authenticate_returned}
use nest_js_tutorial.Auth.Login.{AuthLoginRequest, login}
use nest_js_tutorial.Auth.Login.Laws.{IsLoggedIn, login_returned}
use nest_js_tutorial.Base.{Option}
use nest_js_tutorial.Tests.Data.{jane, sample, world}

abbrev hashed : Text → Outcome Text
hashed password = returned (codes "h:" ++ password)

abbrev new : Generated
new = record { user_id = codes "u9"; outbox_id = codes "m9"; now = 70 }

abbrev mary : RegisterRequest
mary = record { email = codes "mary@example.com"; username = codes "mary"; password = codes "pw" }

abbrev registered : World (Unit {0})
registered = (Registration.register steady_orm hashed new mary world).1

abbrev issue : Text → Outcome Text
issue name = returned (codes "t:" ++ name)

register_route_example :
    (token : Text) × (issue mary.username ≡ returned token)
    × (registered_user (codes "t:mary") (mary.email, mary.username)
        ≡ registered_user token (mary.email, mary.username))
    × IsRegisteredAs hashed new mary (mary.email, mary.username) sample registered.db
unfolding Registration.register Registration.register_in_transaction Registration.assert_available
    Registration.insert_user user_by_username user_by_email find ◌==◌ register_route create_token
register_route_example =
    register_route_returned steady_orm hashed issue new mary world registered
      (registered_user (codes "t:mary") (mary.email, mary.username)) refl

abbrev impostor : RegisterRequest
impostor = record {
  email = codes "jane@example.com";
  username = codes "other";
  password = codes "pw";
}

abbrev refused : World (Unit {0})
refused = (register_route steady_orm hashed issue new impostor world).1

abbrev email_error : Exception
email_error = Exception.http 409 (errors_body (codes "email") (codes "has already been taken"))

register_answers_example :
    (refused.db ≡ world.db) × IsOneOf (format_api_exception email_error) register_answers
unfolding Registration.register Registration.register_in_transaction Registration.assert_available
    Registration.insert_user Registration.register_error Registration.register_response_error
    user_by_username user_by_email find ◌==◌ register_route create_token
register_answers_example =
    register_route_answers steady_orm hashed issue new impostor world refused email_error refl

abbrev later : List ℕ
later = 6 ∷ 7 ∷ 8 ∷ 9 ∷ 10 ∷ []

abbrev no_counters : Counters
no_counters key = none

abbrev same : Text → Text
same s = s

admitted_example :
    admitted same same (codes "jane@example.com") none (5 ∷ later) no_counters ≡ smaller 6 5
admitted_example =
    admitted_lem same same (codes "jane@example.com") none 5 later no_counters refl refl
      (omega arith, (omega arith, (omega arith, (omega arith, (omega arith, tt)))))

abbrev claims : Value
claims = obj (
    field (codes "aud") (str (codes "app")) (
      field (codes "iss") (str (codes "app")) (
        field (codes "sub") (str (codes "jane")) (
          field (codes "jti") (str (codes "id"))
            (field (codes "exp") (num 9) (field (codes "iat") (num 1) end))))))

abbrev verifies : Text → M (Unit {0}) Value
verifies token s = (returned claims, s)

abbrev never_denied : Text → M (Unit {0}) Bool
never_denied jti s = (returned false, s)

abbrev unavailable : Text → M (Unit {0}) Bool
unavailable jti s = (thrown Exception.token_deny_list_unavailable, s)

authenticate_returned_example : IsAuthenticated verifies never_denied (codes "abc") claims tt tt
unfolding authenticate is_token_claims get_field ◌==◌
authenticate_returned_example =
    authenticate_returned verifies never_denied (codes "abc") claims tt tt refl

abbrev passes : Text → Option Text → M (Unit {0}) (Unit {0})
passes email ip_address s = (returned tt, s)

abbrev finds_jane : Text → M (Unit {0}) (Option User)
finds_jane email s = (returned (some jane), s)

abbrev accepts : Text → Text → M (Unit {0}) Bool
accepts hash password s = (returned true, s)

abbrev issues : Text → M (Unit {0}) Text
issues username s = (returned (codes "token"), s)

abbrev by_jane : AuthLoginRequest
by_jane = record { email = codes "jane@example.com"; ip_address = none; password = codes "pw" }

login_returned_example :
    IsLoggedIn passes finds_jane accepts issues by_jane (codes "token") jane tt tt
unfolding login
login_returned_example =
    login_returned passes finds_jane accepts issues by_jane (codes "token") jane tt tt refl
