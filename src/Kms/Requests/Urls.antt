-- ===== src/Kms/Requests/Urls.antt =====
-- The URLs that the caches give.
use web3signer_go.Base.{◌+++◌, String, ◌≡◌, refl, ap, ◌⊎◌, inl, inr, List, [], ◌∷◌, arith, eq_iff}
use web3signer_go.Kms.Requests.{
  UrlCache, new_cache, reset_url_cache, get_sign_url, get_task_url, or_else,
}

-- The calls that change the caches.
pub data UrlCall : Type 0 where
  sign_urls task_urls : String → UrlCall
  resets : UrlCall

abbrev pub after : String → List UrlCall → UrlCache → UrlCache
after endpoint [] c = c
after endpoint (sign_urls k ∷ calls) c = after endpoint calls (get_sign_url endpoint k c).1
after endpoint (task_urls k ∷ calls) c = after endpoint calls (get_task_url endpoint k c).1
after endpoint (resets ∷ calls) c = after endpoint calls (reset_url_cache c)

-- A cache is empty or holds the base of the URLs.
record Cached (endpoint : String) (c : UrlCache) : Type 0 where
  signs : (c.sign_url ≡ "") ⊎ (c.sign_url ≡ endpoint +++ "/api/v1/keys/")
  tasks : (c.task_url_template ≡ "") ⊎ (c.task_url_template ≡ endpoint +++ "/api/v1/tasks/")

or_else_lem : (s base : String) → (s ≡ "") ⊎ (s ≡ base) → or_else s base ≡ base
or_else_lem s base (inl e) = ground (arith, eq_iff s "")
or_else_lem s base (inr e) = ground (arith, eq_iff s "")

get_sign_url-Cached :
    (endpoint k : String) (c : UrlCache)
    → Cached endpoint c
    → Cached endpoint (get_sign_url endpoint k c).1
      × ((get_sign_url endpoint k c).0 ≡ (endpoint +++ "/api/v1/keys/") +++ (k +++ "/sign"))
unfolding get_sign_url
get_sign_url-Cached endpoint k c h =
    let e = or_else_lem c.sign_url (endpoint +++ "/api/v1/keys/") h.signs in
    (record { signs = inr e; tasks = h.tasks }, ap (◌+++ (k +++ "/sign")) e)

get_task_url-Cached :
    (endpoint k : String) (c : UrlCache)
    → Cached endpoint c
    → Cached endpoint (get_task_url endpoint k c).1
      × ((get_task_url endpoint k c).0 ≡ (endpoint +++ "/api/v1/tasks/") +++ k)
unfolding get_task_url
get_task_url-Cached endpoint k c h =
    let e = or_else_lem c.task_url_template (endpoint +++ "/api/v1/tasks/") h.tasks in
    (record { signs = h.signs; tasks = inr e }, ap (◌+++ k) e)

after-Cached :
    (endpoint : String) (calls : List UrlCall) (c : UrlCache)
    → Cached endpoint c
    → Cached endpoint (after endpoint calls c)
unfolding reset_url_cache
after-Cached endpoint [] c h = h
after-Cached endpoint (sign_urls k ∷ calls) c h =
    after-Cached endpoint calls _ (get_sign_url-Cached endpoint k c h).0
after-Cached endpoint (task_urls k ∷ calls) c h =
    after-Cached endpoint calls _ (get_task_url-Cached endpoint k c h).0
after-Cached endpoint (resets ∷ calls) c h =
    after-Cached endpoint calls _ (record { signs = inl refl; tasks = inl refl })

-- Whatever was asked of a new client's URL caches before, with resets in between, the URLs are
-- those that the endpoint and the id spell.
pub urls-exact :
    (endpoint k : String) (calls : List UrlCall)
    → ((get_sign_url endpoint k (after endpoint calls new_cache)).0
        ≡ (endpoint +++ "/api/v1/keys/") +++ (k +++ "/sign"))
      × ((get_task_url endpoint k (after endpoint calls new_cache)).0
          ≡ (endpoint +++ "/api/v1/tasks/") +++ k)
urls-exact endpoint k calls =
    let h = after-Cached endpoint calls new_cache (record { signs = inl refl; tasks = inl refl }) in
    ((get_sign_url-Cached endpoint k _ h).1, (get_task_url-Cached endpoint k _ h).1)
