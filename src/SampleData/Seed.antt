-- ===== src/SampleData/Seed.antt =====
-- internal/controller/sampledata.go: the SQL that seeds the tables, and the script that runs it.
use data_platform_operator.Base.{[], ◌∷◌, String, ◌<>◌}
use data_platform_operator.Base.Text.{joined}

unfoldable pub sample_data_sql : String → String → String
sample_data_sql catalog schema =
    let fq = catalog <> "." <> schema in
    joined (
      "-- Generated by data-platform-operator. Demo Iceberg tables for local testing.\n"
      ∷ ("CREATE SCHEMA IF NOT EXISTS " <> fq <> "\n")
      ∷ ";\n"
      ∷ ("CREATE TABLE IF NOT EXISTS " <> fq <> ".orders (\n")
      ∷ "  order_id bigint,\n"
      ∷ "  customer varchar,\n"
      ∷ "  region varchar,\n"
      ∷ "  tenant_id bigint,\n"
      ∷ "  amount decimal(12,2),\n"
      ∷ "  ssn varchar,\n"
      ∷ "  email varchar\n"
      ∷ ")\n"
      ∷ ";\n"
      ∷ ("CREATE TABLE IF NOT EXISTS " <> fq <> ".invoices (\n")
      ∷ "  invoice_id bigint,\n"
      ∷ "  order_id bigint,\n"
      ∷ "  region varchar,\n"
      ∷ "  email varchar,\n"
      ∷ "  total decimal(12,2)\n"
      ∷ ")\n"
      ∷ ";\n"
      ∷ ("INSERT INTO " <> fq
          <> ".orders (order_id, customer, region, tenant_id, amount, ssn, email)\n")
      ∷ "SELECT * FROM (VALUES\n"
      ∷ "  (1, 'Acme Corp', 'emea', 100, CAST(120.50 AS decimal(12,2)), '111-22-3333', 'buyer@acme.example'),\n"
      ∷ "  (2, 'Globex', 'us-east', 200, CAST(89.00 AS decimal(12,2)), '222-33-4444', 'ops@globex.example'),\n"
      ∷ "  (3, 'Initech', 'emea', 100, CAST(450.25 AS decimal(12,2)), '333-44-5555', 'ap@initech.example'),\n"
      ∷ "  (4, 'Umbrella', 'us-west', 300, CAST(15.99 AS decimal(12,2)), '444-55-6666', 'purchasing@umbrella.example')\n"
      ∷ ") AS t(order_id, customer, region, tenant_id, amount, ssn, email)\n"
      ∷ ("WHERE NOT EXISTS (SELECT 1 FROM " <> fq <> ".orders LIMIT 1)\n")
      ∷ ";\n"
      ∷ ("INSERT INTO " <> fq <> ".invoices (invoice_id, order_id, region, email, total)\n")
      ∷ "SELECT * FROM (VALUES\n"
      ∷ "  (1001, 1, 'emea', 'buyer@acme.example', CAST(120.50 AS decimal(12,2))),\n"
      ∷ "  (1002, 2, 'us-east', 'ops@globex.example', CAST(89.00 AS decimal(12,2))),\n"
      ∷ "  (1003, 3, 'emea', 'ap@initech.example', CAST(450.25 AS decimal(12,2))),\n"
      ∷ "  (1004, 4, 'us-west', 'purchasing@umbrella.example', CAST(15.99 AS decimal(12,2)))\n"
      ∷ ") AS t(invoice_id, order_id, region, email, total)\n"
      ∷ ("WHERE NOT EXISTS (SELECT 1 FROM " <> fq <> ".invoices LIMIT 1)\n")
      ∷ ";\n"
      ∷ [])

unfoldable pub sample_data_seed_script : String
sample_data_seed_script = joined (
    "#!/usr/bin/env python3\n" ∷ "import json\n" ∷ "import os\n" ∷ "import time\n"
    ∷ "import urllib.error\n" ∷ "import urllib.parse\n" ∷ "import urllib.request\n" ∷ "\n"
    ∷ "def http_json(req):\n" ∷ "    try:\n"
    ∷ "        with urllib.request.urlopen(req, timeout=60) as resp:\n"
    ∷ "            body = resp.read().decode()\n" ∷ "            if not body:\n"
    ∷ "                return {}\n" ∷ "            return json.loads(body)\n"
    ∷ "    except urllib.error.HTTPError as e:\n" ∷ "        detail = e.read().decode()\n"
    ∷ "        raise SystemExit(\"HTTP %s for %s: %s\" % (e.code, req.full_url, detail)) from e\n"
    ∷ "\n" ∷ "def access_token():\n" ∷ "    token_url = os.environ.get(\"TOKEN_URL\", \"\")\n"
    ∷ "    if not token_url:\n" ∷ "        return None\n" ∷ "    data = urllib.parse.urlencode({\n"
    ∷ "        \"grant_type\": \"password\",\n"
    ∷ "        \"client_id\": os.environ[\"OIDC_CLIENT_ID\"],\n"
    ∷ "        \"username\": os.environ[\"OIDC_USERNAME\"],\n"
    ∷ "        \"password\": os.environ[\"OIDC_PASSWORD\"],\n" ∷ "    }).encode()\n"
    ∷ "    req = urllib.request.Request(token_url, data=data, method=\"POST\")\n"
    ∷ "    payload = http_json(req)\n" ∷ "    token = payload.get(\"access_token\")\n"
    ∷ "    if not token:\n"
    ∷ "        raise SystemExit(\"token response missing access_token: %s\" % payload)\n"
    ∷ "    return token\n" ∷ "\n" ∷ "def jwt_sub(token):\n"
    ∷ "    payload = token.split(\".\")[1]\n" ∷ "    payload += \"=\" * (-len(payload) % 4)\n"
    ∷ "    # Keycloak may use URL-safe base64; accept both.\n" ∷ "    import base64\n"
    ∷ "    raw = base64.urlsafe_b64decode(payload.encode())\n"
    ∷ "    return json.loads(raw).get(\"sub\") or json.loads(raw).get(\"preferred_username\")\n"
    ∷ "\n" ∷ "def run_statement(server, sql, headers):\n" ∷ "    req = urllib.request.Request(\n"
    ∷ "        server.rstrip(\"/\") + \"/v1/statement\",\n" ∷ "        data=sql.encode(),\n"
    ∷ "        headers=dict(headers, **{\"Content-Type\": \"text/plain\"}),\n"
    ∷ "        method=\"POST\",\n" ∷ "    )\n" ∷ "    data = http_json(req)\n" ∷ "    while True:\n"
    ∷ "        err = data.get(\"error\")\n" ∷ "        if err:\n"
    ∷ "            raise SystemExit(\"Trino error: %s\" % err)\n"
    ∷ "        state = (data.get(\"stats\") or {}).get(\"state\")\n"
    ∷ "        if state in (\"FINISHED\", \"FAILED\"):\n" ∷ "            if state == \"FAILED\":\n"
    ∷ "                raise SystemExit(\"Trino query failed: %s\" % data)\n"
    ∷ "            return\n" ∷ "        next_uri = data.get(\"nextUri\")\n"
    ∷ "        if not next_uri:\n" ∷ "            return\n" ∷ "        time.sleep(0.25)\n"
    ∷ "        data = http_json(urllib.request.Request(next_uri, headers=headers))\n" ∷ "\n"
    ∷ "def main():\n" ∷ "    server = os.environ[\"TRINO_URL\"]\n"
    ∷ "    sql_path = os.environ[\"SQL_FILE\"]\n"
    ∷ "    headers = {\"X-Trino-Source\": \"data-platform-sample-data\"}\n"
    ∷ "    token = access_token()\n" ∷ "    if token:\n"
    ∷ "        headers[\"Authorization\"] = \"Bearer \" + token\n"
    ∷ "        # Trino OAuth still requires X-Trino-User; it must match the token sub.\n"
    ∷ "        headers[\"X-Trino-User\"] = jwt_sub(token)\n" ∷ "    else:\n"
    ∷ "        headers[\"X-Trino-User\"] = os.environ.get(\"TRINO_USER\", \"admin\")\n" ∷ "\n"
    ∷ "    raw = open(sql_path, encoding=\"utf-8\").read()\n" ∷ "    statements = []\n"
    ∷ "    buf = []\n" ∷ "    for line in raw.splitlines():\n" ∷ "        stripped = line.strip()\n"
    ∷ "        if not stripped or stripped.startswith(\"--\"):\n" ∷ "            continue\n"
    ∷ "        buf.append(line)\n" ∷ "        if stripped.endswith(\";\"):\n"
    ∷ "            stmt = \"\\n\".join(buf).rstrip().rstrip(\";\").strip()\n"
    ∷ "            buf = []\n" ∷ "            if stmt:\n"
    ∷ "                statements.append(stmt)\n" ∷ "    if buf:\n"
    ∷ "        stmt = \"\\n\".join(buf).strip()\n" ∷ "        if stmt:\n"
    ∷ "            statements.append(stmt)\n" ∷ "\n"
    ∷ "    for i, stmt in enumerate(statements, 1):\n"
    ∷ "        print(\"Running statement %s/%s...\" % (i, len(statements)), flush=True)\n"
    ∷ "        run_statement(server, stmt, headers)\n"
    ∷ "    print(\"Sample data seed complete\", flush=True)\n" ∷ "\n"
    ∷ "if __name__ == \"__main__\":\n" ∷ "    main()\n" ∷ [])
