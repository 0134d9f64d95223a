-- ===== src/EmailOtp/Mail/Html.antt =====
-- The HTML part of the email that `_build_email_message` of app/services/email_otp.py builds.
use ms_auth_service.Prelude.{String, List, [], ◌∷◌}
use ms_auth_service.Py.Str.{◌++◌}

-- What the two purposes of the email fill in; `footer` is `footer_brand.split('&bull; ')[-1]`.
pub record Texts : Type 0 where
  pub badge : String
  pub title : String
  pub desc : String
  pub code_label : String
  pub footer : String
  pub note : String

unfoldable concat : List String → String
concat [] = ""
concat (s ∷ rest) = s ++ concat rest

-- The f-string, line by line.
unfoldable pub html_body : Texts → (code minutes : String) → String
unfolding concat
html_body t code minutes = concat (
    "<!doctype html>\n" ∷ "<html lang=\"pt-BR\">\n"
    ∷ "  <body style=\"margin:0;padding:0;background:#010B13;\">\n"
    ∷ "    <div style=\"display:none;max-height:0;overflow:hidden;opacity:0;\">\n"
    ∷ "      Seu código Ouros é " ∷ code ∷ ". Ele expira em " ∷ minutes ∷ " minuto(s).\n"
    ∷ "    </div>\n" ∷ "\n"
    ∷ "    <table role=\"presentation\" width=\"100%\" cellspacing=\"0\" cellpadding=\"0\"\n"
    ∷ "      border=\"0\" style=\"width:100%;background:#010B13;margin:0;padding:0;\">\n"
    ∷ "      <tr>\n" ∷ "        <td align=\"center\" style=\"padding:40px 16px;\">\n"
    ∷ "          <table role=\"presentation\" width=\"100%\" cellspacing=\"0\" cellpadding=\"0\"\n"
    ∷ "            border=\"0\"\n"
    ∷ "            style=\"width:100%;max-width:600px;border-collapse:separate;\">\n"
    ∷ "            <tr>\n" ∷ "              <td align=\"center\" style=\"padding:0 0 28px 0;\">\n"
    ∷ "                <img src=\"cid:ouros-logo\" alt=\"Ouros\" width=\"220\"\n"
    ∷ "                  style=\"display:block;width:220px;max-width:80%;height:auto;border:0;\">\n"
    ∷ "              </td>\n" ∷ "            </tr>\n" ∷ "\n" ∷ "            <tr>\n"
    ∷ "              <td style=\"background:#F2F5F7;border-radius:24px;overflow:hidden;\">\n"
    ∷ "                <div style=\"height:6px;line-height:6px;background:#D8A23A;\">&nbsp;</div>\n"
    ∷ "\n" ∷ "                <table role=\"presentation\" width=\"100%\" cellspacing=\"0\"\n"
    ∷ "                  cellpadding=\"0\" border=\"0\" style=\"width:100%;\">\n"
    ∷ "                  <tr>\n"
    ∷ "                    <td style=\"padding:44px 44px 18px 44px;\">\n"
    ∷ "                      <div style=\"\n" ∷ "                        display:inline-block;\n"
    ∷ "                        font-family:Poppins,Arial,sans-serif;\n"
    ∷ "                        font-size:12px;\n" ∷ "                        font-weight:600;\n"
    ∷ "                        letter-spacing:1.4px;\n"
    ∷ "                        text-transform:uppercase;\n"
    ∷ "                        color:#171438;\n" ∷ "                        background:#E9E6F2;\n"
    ∷ "                        border-radius:999px;\n"
    ∷ "                        padding:8px 12px;\">\n" ∷ "                        " ∷ t.badge ∷ "\n"
    ∷ "                      </div>\n" ∷ "\n" ∷ "                      <h1 style=\"\n"
    ∷ "                        margin:22px 0 12px 0;\n"
    ∷ "                        font-family:Poppins,Arial,sans-serif;\n"
    ∷ "                        font-size:30px;\n" ∷ "                        line-height:1.12;\n"
    ∷ "                        letter-spacing:-1.2px;\n"
    ∷ "                        font-weight:700;\n" ∷ "                        color:#010B13;\">\n"
    ∷ "                        " ∷ t.title ∷ "\n" ∷ "                      </h1>\n" ∷ "\n"
    ∷ "                      <p style=\"\n" ∷ "                        margin:0;\n"
    ∷ "                        font-family:Poppins,Arial,sans-serif;\n"
    ∷ "                        font-size:16px;\n" ∷ "                        line-height:1.65;\n"
    ∷ "                        color:#4B4A58;\">\n" ∷ "                        " ∷ t.desc ∷ "\n"
    ∷ "                      </p>\n" ∷ "                    </td>\n" ∷ "                  </tr>\n"
    ∷ "\n" ∷ "                  <tr>\n"
    ∷ "                    <td style=\"padding:12px 44px 18px 44px;\">\n"
    ∷ "                      <table role=\"presentation\" width=\"100%\" cellspacing=\"0\"\n"
    ∷ "                        cellpadding=\"0\" border=\"0\"\n"
    ∷ "                        style=\"width:100%;background:#171438;border-radius:18px;\">\n"
    ∷ "                        <tr>\n"
    ∷ "                          <td align=\"center\" style=\"padding:28px 18px 24px 18px;\">\n"
    ∷ "                            <div style=\"\n"
    ∷ "                              font-family:Poppins,Arial,sans-serif;\n"
    ∷ "                              font-size:12px;\n"
    ∷ "                              line-height:1;\n"
    ∷ "                              font-weight:600;\n"
    ∷ "                              letter-spacing:1.8px;\n"
    ∷ "                              text-transform:uppercase;\n"
    ∷ "                              color:#D8A23A;\n"
    ∷ "                              margin-bottom:14px;\">\n" ∷ "                              "
    ∷ t.code_label ∷ "\n" ∷ "                            </div>\n" ∷ "\n"
    ∷ "                            <div style=\"\n"
    ∷ "                              font-family:'Courier New',Courier,monospace;\n"
    ∷ "                              font-size:40px;\n"
    ∷ "                              line-height:1;\n"
    ∷ "                              font-weight:700;\n"
    ∷ "                              letter-spacing:10px;\n"
    ∷ "                              color:#F2F5F7;\n"
    ∷ "                              white-space:nowrap;\">\n" ∷ "                              "
    ∷ code ∷ "\n" ∷ "                            </div>\n" ∷ "                          </td>\n"
    ∷ "                        </tr>\n" ∷ "                      </table>\n"
    ∷ "                    </td>\n" ∷ "                  </tr>\n" ∷ "\n"
    ∷ "                  <tr>\n"
    ∷ "                    <td style=\"padding:4px 44px 42px 44px;\">\n"
    ∷ "                      <p style=\"\n" ∷ "                        margin:0 0 18px 0;\n"
    ∷ "                        font-family:Poppins,Arial,sans-serif;\n"
    ∷ "                        font-size:14px;\n" ∷ "                        line-height:1.6;\n"
    ∷ "                        color:#656372;\">\n"
    ∷ "                        Este código expira em\n"
    ∷ "                        <strong style=\"color:#010B13;\">" ∷ minutes
    ∷ " minuto(s)</strong>.\n" ∷ "                      </p>\n" ∷ "\n"
    ∷ "                      <table role=\"presentation\" width=\"100%\" cellspacing=\"0\"\n"
    ∷ "                        cellpadding=\"0\" border=\"0\"\n"
    ∷ "                        style=\"width:100%;border-top:1px solid #D9DCE0;\">\n"
    ∷ "                        <tr>\n"
    ∷ "                          <td style=\"padding-top:20px;\">\n"
    ∷ "                            <p style=\"\n" ∷ "                              margin:0;\n"
    ∷ "                              font-family:Poppins,Arial,sans-serif;\n"
    ∷ "                              font-size:12px;\n"
    ∷ "                              line-height:1.6;\n"
    ∷ "                              color:#777582;\">\n" ∷ "                              "
    ∷ t.note ∷ "\n" ∷ "                            </p>\n" ∷ "                          </td>\n"
    ∷ "                        </tr>\n" ∷ "                      </table>\n"
    ∷ "                    </td>\n" ∷ "                  </tr>\n" ∷ "                </table>\n"
    ∷ "              </td>\n" ∷ "            </tr>\n" ∷ "\n" ∷ "            <tr>\n"
    ∷ "              <td align=\"center\" style=\"padding:24px 20px 0 20px;\">\n"
    ∷ "                <p style=\"\n" ∷ "                  margin:0;\n"
    ∷ "                  font-family:Poppins,Arial,sans-serif;\n"
    ∷ "                  font-size:12px;\n" ∷ "                  line-height:1.6;\n"
    ∷ "                  letter-spacing:.2px;\n" ∷ "                  color:#9B99AA;\">\n"
    ∷ "                  Ouros &bull; " ∷ t.footer ∷ "\n" ∷ "                </p>\n"
    ∷ "              </td>\n" ∷ "            </tr>\n" ∷ "          </table>\n" ∷ "        </td>\n"
    ∷ "      </tr>\n" ∷ "    </table>\n" ∷ "  </body>\n" ∷ "</html>" ∷ [])
