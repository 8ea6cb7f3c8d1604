-- ===== src/Superset/Python.antt =====
-- internal/controller/superset.go: the Python files that Superset is configured with.
use data_platform_operator.Base.{[], ◌∷◌, String, ◌<>◌, ◌==◌, if◌then◌else◌}
use data_platform_operator.Base.Text.{joined, trim_slashes}
use data_platform_operator.Api.Constants.{
  default_group_platform_admins, default_group_data_engineers, default_group_analysts,
}
use data_platform_operator.Config.{OidcConfig}
use data_platform_operator.Oidc.{oidc_auth_url, oidc_jwks_url}

-- A browser is sent to the public issuer, where there is one.
unfoldable pub superset_auth_url : OidcConfig → String
superset_auth_url oidc =
    oidc_auth_url (if oidc.public_issuer == "" then oidc.issuer else oidc.public_issuer)

unfoldable pub superset_api_base : OidcConfig → String
superset_api_base oidc = trim_slashes oidc.issuer <> "/protocol/"

-- `%q` is the parameter `quote`.
module _ (quote : String → String) where
  unfoldable pub config_base : String → String → String
  config_base db_uri trino_uri = joined (
      "# Generated by data-platform-operator. Do not edit.\n"
      ∷ "import os\n"
      ∷ "from flask_appbuilder.security.manager import AUTH_DB, AUTH_OAUTH\n\n"
      ∷ ("SQLALCHEMY_DATABASE_URI = " <> quote db_uri <> "\n")
      ∷ "SECRET_KEY = os.environ.get(\"SUPERSET_SECRET_KEY\", \"change-me\")\n"
      ∷ ("REDIS_URL = " <> quote "redis://superset-redis:6379/0" <> "\n")
      ∷ "CACHE_CONFIG = {\n"
      ∷ "    \"CACHE_TYPE\": \"RedisCache\",\n"
      ∷ "    \"CACHE_DEFAULT_TIMEOUT\": 300,\n"
      ∷ "    \"CACHE_KEY_PREFIX\": \"superset_\",\n"
      ∷ "    \"CACHE_REDIS_URL\": REDIS_URL,\n"
      ∷ "}\n"
      ∷ "DATA_CACHE_CONFIG = CACHE_CONFIG\n"
      ∷ "FILTER_STATE_CACHE_CONFIG = CACHE_CONFIG\n"
      ∷ "EXPLORE_FORM_DATA_CACHE_CONFIG = CACHE_CONFIG\n"
      ∷ "RATELIMIT_ENABLED = True\n"
      ∷ "RATELIMIT_STORAGE_URI = REDIS_URL\n"
      ∷ "ENABLE_PROXY_FIX = True\n"
      ∷ "FEATURE_FLAGS = {\"EMBEDDED_SUPERSET\": False}\n"
      ∷ ("TRINO_SQLALCHEMY_URI = " <> quote trino_uri <> "\n\n")
      ∷ [])

  unfoldable pub config_redirect : String → String → String
  config_redirect public_url line = if public_url == "" then "" else line

  unfoldable pub config_provider : OidcConfig → String
  unfolding superset_auth_url superset_api_base
  config_provider oidc = joined (
      "AUTH_TYPE = AUTH_OAUTH\n"
      ∷ "AUTH_USER_REGISTRATION = True\n"
      ∷ "AUTH_USER_REGISTRATION_ROLE = \"Gamma\"\n"
      ∷ "AUTH_ROLES_SYNC_AT_LOGIN = True\n"
      ∷ "AUTH_ROLES_MAPPING = {\n"
      ∷ ("    " <> quote default_group_platform_admins <> ": [\"Admin\"],\n")
      ∷ ("    " <> quote default_group_data_engineers <> ": [\"Alpha\"],\n")
      ∷ ("    " <> quote default_group_analysts <> ": [\"Gamma\"],\n")
      ∷ "}\n"
      ∷ "OAUTH_PROVIDERS = [{\n"
      ∷ "    \"name\": \"keycloak\",\n"
      ∷ "    \"icon\": \"fa-key\",\n"
      ∷ "    \"token_key\": \"access_token\",\n"
      ∷ "    \"remote_app\": {\n"
      ∷ "        \"client_id\": os.environ.get(\"SUPERSET_OIDC_CLIENT_ID\", \"superset\"),\n"
      ∷ "        \"client_secret\": os.environ.get(\"SUPERSET_OIDC_CLIENT_SECRET\", \"\"),\n"
      ∷ "        \"client_kwargs\": {\"scope\": \"openid profile email\"},\n"
      ∷ ("        \"api_base_url\": " <> quote (superset_api_base oidc) <> ",\n")
      ∷ ("        \"access_token_url\": " <> quote oidc.token_url <> ",\n")
      ∷ ("        \"authorize_url\": " <> quote (superset_auth_url oidc) <> ",\n")
      ∷ ("        \"jwks_uri\": " <> quote (oidc_jwks_url oidc.issuer) <> ",\n")
      ∷ "    },\n"
      ∷ "}]\n"
      ∷ [])

  unfoldable pub config_database_client : OidcConfig → String → String
  unfolding config_redirect superset_auth_url
  config_database_client oidc public_url = joined (
      config_redirect public_url (
        "DATABASE_OAUTH2_REDIRECT_URI = "
        <> quote (public_url <> "/api/v1/database/oauth2/")
        <> "\n")
      ∷ "DATABASE_OAUTH2_CLIENTS = {\n"
      ∷ "    \"Trino\": {\n"
      ∷ "        \"id\": os.environ.get(\"TRINO_OIDC_CLIENT_ID\", \"trino\"),\n"
      ∷ "        \"secret\": os.environ.get(\"TRINO_OIDC_CLIENT_SECRET\", \"\"),\n"
      ∷ "        \"scope\": \"openid profile email\",\n"
      ∷ config_redirect public_url (
          "        \"redirect_uri\": " <> quote (public_url <> "/api/v1/database/oauth2/") <> ",\n")
      ∷ ("        \"authorization_request_uri\": " <> quote (superset_auth_url oidc) <> ",\n")
      ∷ ("        \"token_request_uri\": " <> quote oidc.token_url <> ",\n")
      ∷ "        \"request_content_type\": \"data\",\n"
      ∷ "    },\n"
      ∷ "}\n"
      ∷ [])

  -- Trino's user becomes the subject of the token.
  unfoldable pub config_mutator : String
  config_mutator = joined (
      "def DB_CONNECTION_MUTATOR(uri, params, username, security_manager, source):\n"
      ∷ "    import base64, json\n" ∷ "    connect_args = params.setdefault(\"connect_args\", {})\n"
      ∷ "    session = connect_args.get(\"http_session\")\n" ∷ "    auth = None\n"
      ∷ "    if session is not None:\n"
      ∷ "        auth = session.headers.get(\"Authorization\") or session.headers.get(\"authorization\")\n"
      ∷ "    if isinstance(auth, str) and auth.lower().startswith(\"bearer \"):\n"
      ∷ "        token = auth.split(\" \", 1)[1].strip()\n" ∷ "        try:\n"
      ∷ "            payload = token.split(\".\")[1]\n"
      ∷ "            payload += \"=\" * (-len(payload) % 4)\n"
      ∷ "            claims = json.loads(base64.urlsafe_b64decode(payload.encode(\"ascii\")))\n"
      ∷ "            if sub := claims.get(\"sub\"):\n"
      ∷ "                connect_args[\"user\"] = sub\n" ∷ "        except Exception:\n"
      ∷ "            pass\n" ∷ "    return uri, params\n" ∷ [])

  unfoldable pub config_login : OidcConfig → String → String
  unfolding config_provider config_database_client config_mutator
  config_login oidc public_url =
      if oidc.enabled
      then config_provider oidc <> config_database_client oidc public_url <> config_mutator
      else "AUTH_TYPE = AUTH_DB\n"

  unfoldable pub superset_config_text : String → String → OidcConfig → String → String
  unfolding config_base config_login trim_slashes
  superset_config_text db_uri trino_uri oidc public_url =
      config_base db_uri trino_uri <> config_login oidc (trim_slashes public_url)

  unfoldable pub superset_bootstrap_text : String → String
  superset_bootstrap_text trino_uri = joined (
      "# Generated by data-platform-operator. Seeds the managed Trino database.\n"
      ∷ "from superset.app import create_app\n\n"
      ∷ "app = create_app()\n"
      ∷ "with app.app_context():\n"
      ∷ "    from superset import db\n"
      ∷ "    from superset.models.core import Database\n\n"
      ∷ "    name = \"Trino\"\n"
      ∷ ("    uri = " <> quote trino_uri <> "\n")
      ∷ "    existing = db.session.query(Database).filter_by(database_name=name).one_or_none()\n"
      ∷ "    if existing is None:\n"
      ∷ "        database = Database(database_name=name, sqlalchemy_uri=uri)\n"
      ∷ "        database.set_sqlalchemy_uri(uri)\n"
      ∷ "        db.session.add(database)\n"
      ∷ "    else:\n"
      ∷ "        database = existing\n"
      ∷ "        database.set_sqlalchemy_uri(uri)\n"
      ∷ "    database.impersonate_user = True\n"
      ∷ "    extra = database.get_extra() or {}\n"
      ∷ "    extra[\"allows_virtual_table_explore\"] = True\n"
      ∷ "    # Mark OAuth2 so SQL Lab triggers the per-user Trino token dance.\n"
      ∷ "    engine_params = extra.get(\"engine_params\") or {}\n"
      ∷ "    connect_args = engine_params.get(\"connect_args\") or {}\n"
      ∷ "    connect_args[\"http_scheme\"] = \"http\"\n"
      ∷ "    engine_params[\"connect_args\"] = connect_args\n"
      ∷ "    extra[\"engine_params\"] = engine_params\n"
      ∷ "    database.extra = __import__(\"json\").dumps(extra)\n"
      ∷ "    # OAuth2 for Trino comes from DATABASE_OAUTH2_CLIENTS (keyed by engine\n"
      ∷ "    # name \"Trino\"). Do not store a partial oauth2_client_info blob —\n"
      ∷ "    # Superset validates that as a full client config and fails.\n"
      ∷ "    try:\n"
      ∷ "        encrypted = database.get_encrypted_extra() or {}\n"
      ∷ "        if \"oauth2_client_info\" in encrypted:\n"
      ∷ "            del encrypted[\"oauth2_client_info\"]\n"
      ∷ "            database.encrypted_extra = __import__(\"json\").dumps(encrypted) if encrypted else None\n"
      ∷ "    except Exception:\n"
      ∷ "        pass\n"
      ∷ "    db.session.commit()\n"
      ∷ "    print(\"Ensured Trino database connection\", flush=True)\n"
      ∷ [])
