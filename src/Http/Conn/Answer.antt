-- ===== src/Http/Conn/Answer.antt =====
-- `do_request`: a request for the gateway, or a file.
-- What the calls of `stat`, `open` and `mmap` give for a path.
use my_bookstore.Base.{
  ◌∷◌, is_empty, ◌++◌, codes, if◌then◌else◌, none, [], some, starts_with, Bool, Option, Text,
}
use my_bookstore.Http.Url.{split_path_and_query}
use my_bookstore.Http.Conn.{
  file_request, post, bad_request, internal_error, get, forbidden_request, no_resource,
  api_response, Conn, Method, HttpCode,
}
use my_bookstore.Http.{to_http_string, json, HttpMethod, HttpResponse, HttpRequest}

pub data File : Type 0 where
  missing hidden directory unopened unmapped : File
  mapped : Text → File

-- The code, `api_response_`, `real_file_` and the bytes behind `mmap_file_`.
pub record Answer : Type 0 where
  pub code : HttpCode
  pub api_text : Text
  pub real_file : Text
  pub file : Text

-- `to_api_method`
abbrev to_api_method : Method → HttpMethod
to_api_method get = HttpMethod.get
to_api_method post = HttpMethod.post

-- `url_.rfind("/api/", 0) == 0`
abbrev is_api : Text → Bool
is_api url = starts_with (codes "/api/") url

unfoldable pub request_of : Conn → HttpRequest
unfolding split_path_and_query
request_of c =
    let (path, query_params) = split_path_and_query c.url in
    record {
      method = to_api_method c.method;
      path = path;
      body = c.request_body;
      headers = if is_empty c.host then [] else (codes "Host", c.host) ∷ [];
      path_params = [];
      query_params = query_params;
    }

abbrev only : HttpCode → Answer
only code = record { code = code; api_text = []; real_file = []; file = [] }

abbrev not_routed : HttpResponse
not_routed = json 404 (codes "{\"code\":404,\"message\":\"api route not found\",\"data\":null}")

abbrev or_not_routed : Option HttpResponse → HttpResponse
or_not_routed none = not_routed
or_not_routed (some response) = response

abbrev api_answer : Bool → Option HttpResponse → Answer
api_answer linger response = record (only api_response) {
  api_text = to_http_string (or_not_routed response) linger;
}

unfoldable pub file_answer : Text → File → Answer
file_answer path missing = record (only no_resource) { real_file = path }
file_answer path hidden = record (only forbidden_request) { real_file = path }
file_answer path directory = record (only bad_request) { real_file = path }
file_answer path unopened = record (only no_resource) { real_file = path }
file_answer path unmapped = record (only internal_error) { real_file = path }
file_answer path (mapped bytes) = record (only file_request) { real_file = path; file = bytes }

-- `api_gateway_->dispatch`, on the state behind the gateway.
abbrev pub Gateway : Type 0 → Type 0
Gateway S = HttpRequest → S → Option HttpResponse × S

module _ {S : Type 0} (gateway : Option (Gateway S)) (files : Text → File) (root : Text) where
  abbrev dispatch_api : Option (Gateway S) → Conn → S → Answer × S
  dispatch_api none c s = (only internal_error, s)
  dispatch_api (some dispatch) c s =
      let (response, s') = dispatch (request_of c) s in (api_answer c.linger response, s')

  unfoldable pub do_request : Conn → S → Answer × S
  unfolding request_of file_answer
  do_request c s =
      if is_api c.url
      then dispatch_api gateway c s
      else (file_answer (root ++ c.url) (files (root ++ c.url)), s)
